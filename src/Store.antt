-- ===== src/Store.antt =====
-- pkg/store: the interface `Alcuber` (interface.go), and what the client of the Alcubierre servers
-- (alcub.go) calls and does not implement. Client has its operations.
pub mod Client
pub mod Laws
pub mod Address
use csi_alcub.Base.{ℕ, String, Bool, List}
use csi_alcub.Base.Dict.{Dict}
use csi_alcub.Base.Exec.{GoError, Result, Go}

-- What a caller passes for `*DynConf`: nil, or the address of `Controller.alcubDynConf`.
pub data ConfPtr : Type 0 where
  null alcub_dyn_conf : ConfPtr

-- `Alcuber`
pub record Alcuber (S : Type 0) : Type 0 where
  pub do_conn : ConfPtr → String → String → Go S String
  pub do_dis_conn : ConfPtr → String → String → Go S (Unit {0})
  pub get_image_status : ConfPtr → String → String → S → Bool × S
  pub fail_node : ConfPtr → String → Go S (Unit {0})
  pub dev_stop : ConfPtr → String → String → Go S (Unit {0})
  pub get_node : ConfPtr → String → Go S (List String)

-- `AlcubConf`
pub record AlcubConf : Type 0 where
  pub alucb_pool : String
  pub api_url : String
  pub user : String
  pub password : String

-- The value that becomes the JSON body of a request: with an operation, or the fields alone.
pub data Body : Type 0 where
  operation : String → Dict String → Body
  fields : Dict String → Body

-- A `*req.Resp` that came without an error. The fields say whether there is an answer behind it,
-- and what `ToJSON` makes of its body at each of the types that the client decodes it into:
-- the value that is there afterwards, or the error.
pub record Response : Type 0 where
  pub answered : Bool
  pub dev : Result GoError String
  pub error : String
  pub status : Result GoError String
  pub nodes : Result GoError (List String)

pub record Url : Type 0 where
  pub scheme : String
  pub host : String

-- The HTTP client imroc/req at its two calls, and `url.Parse`, `path.Join`, `md5.Sum` in
-- hexadecimal and base64 of Go's library.
pub record HttpHost (W : Type 0) : Type 0 where
  pub post : String → Dict String → Body → Go W Response
  pub get : String → Dict String → Body → Go W Response
  pub parse_url : String → Result GoError Url
  pub join_path : List String → String
  pub md5_hex : String → String
  pub base64 : String → String

-- `resource` and `devpath`
abbrev pub resource : String
resource = "dev"

abbrev pub devpath : String
devpath = "/dev"
