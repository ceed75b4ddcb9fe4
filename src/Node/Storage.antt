-- ===== src/Node/Storage.antt =====
-- The address that the node plugin takes for storage.
use csi_alcub.Base.{
  String, ◌≡◌, ◌≢◌, ◌⊎◌, ◌∙◌, refl, sym, subst, inl, inr, true, false, List, [], ◌∷◌, arith, eq_iff,
}
use csi_alcub.Base.Exec.{GoError, Result, ok, err, Result-cases}
use csi_alcub.Utils.{
  Addr, ip_addr, ip_net, other_addr, Interface, lookup_addrs, lookup_interfaces, lookup_addresses,
}
use csi_alcub.Node.{match_name, get_stora_if_ip}

-- The address is among those of one interface.
abbrev pub IsAmong : String → List Addr → Type 0
IsAmong ip [] = ⊥
IsAmong ip (ip_addr a ∷ addrs) = (a ≡ ip) ⊎ IsAmong ip addrs
IsAmong ip (ip_net a ∷ addrs) = (a ≡ ip) ⊎ IsAmong ip addrs
IsAmong ip (other_addr ∷ addrs) = IsAmong ip addrs

-- The address is one that an interface of that name lists.
abbrev pub IsListed : String → String → List Interface → Type 0
IsListed name ip [] = ⊥
IsListed name ip (i ∷ ifaces) =
    ((i.name ≡ name) × ((addrs : List Addr) × (i.addrs ≡ ok addrs) × IsAmong ip addrs))
    ⊎ IsListed name ip ifaces

-- The same for what the system answers.
abbrev pub HasAddress : Result GoError (List Interface) → String → String → Type 0
HasAddress answer name ip =
    (ifaces : List Interface) × (answer ≡ ok ifaces) × IsListed name ip ifaces

module _ (storeifname : String) where
  lookup_addrs-IsAmong :
      (name : String) (addrs : List Addr)
      → let (go, ip) = lookup_addrs (match_name storeifname) name addrs "" in
        ((go ≡ true) × (ip ≡ "")) ⊎ ((go ≡ false) × (name ≡ storeifname) × IsAmong ip addrs)
  unfolding lookup_addrs match_name
  lookup_addrs-IsAmong name [] = ground arith
  lookup_addrs-IsAmong name (other_addr ∷ addrs) = lookup_addrs-IsAmong name addrs
  lookup_addrs-IsAmong name (ip_addr a ∷ addrs) =
      ground (arith, eq_iff name storeifname, lookup_addrs-IsAmong name addrs)
  lookup_addrs-IsAmong name (ip_net a ∷ addrs) =
      ground (arith, eq_iff name storeifname, lookup_addrs-IsAmong name addrs)

  lookup_interfaces-IsListed :
      (ifaces : List Interface)
      → let ip = (lookup_interfaces (match_name storeifname) ifaces "").1 in
        ip ≢ "" → IsListed storeifname ip ifaces
  unfolding lookup_interfaces
  lookup_interfaces-IsListed [] h = absurd (ground arith)
  lookup_interfaces-IsListed (i ∷ ifaces) h = elim (Result-cases i.addrs) [
    | inr (e, bad) ↦ absurd (ground arith)
    | inl (addrs, good) ↦
        let ip = (lookup_interfaces (match_name storeifname) (i ∷ ifaces) "").1 in
        elim (lookup_addrs-IsAmong i.name addrs) [
          | inl (on, nothing) ↦
              let later = (lookup_interfaces (match_name storeifname) ifaces "").1 in
              let same : later ≡ ip = ground arith in
              inr (
                subst (λ a. IsListed storeifname a ifaces) same
                  (lookup_interfaces-IsListed ifaces (λ e. h (sym same ∙ e))))
          | inr (off, named, among) ↦
              let here = (lookup_addrs (match_name storeifname) i.name addrs "").1 in
              let same : here ≡ ip = ground arith in
              inl (named, (addrs, good, subst (λ a. IsAmong a addrs) same among))
        ]
  ]

-- The address that `getStoraIfIp` finds is one that the system lists for an interface of that name.
pub get_stora_if_ip-HasAddress :
    (answer : Result GoError (List Interface)) (storeifname : String)
    → get_stora_if_ip answer storeifname ≢ ""
    → HasAddress answer storeifname (get_stora_if_ip answer storeifname)
unfolding get_stora_if_ip lookup_addresses
get_stora_if_ip-HasAddress (err e) storeifname h = absurd (ground arith)
get_stora_if_ip-HasAddress (ok ifaces) storeifname h =
    let found = lookup_interfaces (match_name storeifname) ifaces "" in
    elim (Result-cases found.0) [
      | inr (e, bad) ↦ absurd (ground arith)
      | inl (u, good) ↦
          let same : found.1 ≡ get_stora_if_ip (ok ifaces) storeifname = ground arith in
          (
            ifaces,
            refl,
            subst (λ a. IsListed storeifname a ifaces) same
                (lookup_interfaces-IsListed storeifname ifaces (λ e. h (sym same ∙ e))),
          )
    ]
