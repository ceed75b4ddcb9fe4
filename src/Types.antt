-- ===== src/Types.antt =====
-- types/errors.go: two types of bytes that are errors. The other one, `AlreadyExist`, is made by
-- `new_already_exist_error` of Manager.
use csi_alcub.Base.{String}

-- `NeedUpdateErr`
pub record NeedUpdateErr : Type 0 where
  pub bytes : String

-- `NewNeedUpdateError`
abbrev pub new_need_update_error : String → NeedUpdateErr
new_need_update_error s = record { bytes = s }

-- `NeedUpdateErr.Error`
abbrev pub error : NeedUpdateErr → String
error nue = nue.bytes
