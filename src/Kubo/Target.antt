-- ===== src/Kubo/Target.antt =====
-- blox/kubo_proxy.go: the address at which kubo reaches the device.
use go_fula.Prelude.{
  Bool, true, false, ◌||◌, Option, none, some, List, [], ◌∷◌, if◌then◌else◌, ◌≡◌, refl, ◌∙◌, ◌⊎◌,
  inl, inr, Bool-cases, Option-cases,
}
use go_fula.Evm.Hex.{Text, codes, has_prefix}
use go_fula.Evm.Abi.{text_eq}

pub data Address : Type 0 where
  ipv4 : Text → Address
  other : Address

-- The addresses of an interface, `none` if it is not there or they cannot be read; and the names of
-- the interfaces at the two calls of net.Interfaces, `none` for nil.
pub record Network : Type 0 where
  pub addresses : Text → Option (List Address)
  pub interfaces : Option (List Text)
  pub interfaces_again : Option (List Text)

unfoldable pub first_ipv4 : List Address → Option Text
first_ipv4 [] = none
first_ipv4 (ipv4 a ∷ rest) = some a
first_ipv4 (other ∷ rest) = first_ipv4 rest

unfoldable pub ipv4_of : Option (List Address) → Option Text
unfolding first_ipv4
ipv4_of none = none
ipv4_of (some addresses) = first_ipv4 addresses

unfoldable pub skipped : Text → Bool
unfolding text_eq has_prefix
skipped name =
    text_eq name (codes "lo")
    || (has_prefix name (codes "docker")
        || (has_prefix name (codes "br-") || has_prefix name (codes "veth")))

unfoldable pub or_else : Option Text → Option Text → Option Text
or_else (some a) rest = some a
or_else none rest = rest

unfoldable pub names_of : Option (List Text) → List Text
names_of none = []
names_of (some names) = names

-- The names of the second call where the first gave none.
unfoldable pub names_again : Option (List Text) → Option (List Text) → List Text
unfolding names_of
names_again none again = names_of again
names_again (some names) again = names

unfoldable pub or_local : Option Text → Text
or_local none = codes "127.0.0.1"
or_local (some a) = a

docker0_name : text_eq (codes "docker0") (codes "docker0") ≡ true
unfolding text_eq
docker0_name = refl

module _ (net : Network) where
  -- getIPv4FromInterface; no address is `none`.
  unfoldable pub get_ipv4_from_interface : Text → Option Text
  unfolding ipv4_of
  get_ipv4_from_interface name = ipv4_of (net.addresses name)

  unfoldable pub compose_bridge : List Text → Option Text
  unfolding get_ipv4_from_interface or_else has_prefix
  compose_bridge [] = none
  compose_bridge (name ∷ names) =
      let rest = compose_bridge names in
      if has_prefix name (codes "br-") then or_else (get_ipv4_from_interface name) rest else rest

  unfoldable pub own_bridge : List Text → Option Text
  unfolding get_ipv4_from_interface or_else skipped
  own_bridge [] = none
  own_bridge (name ∷ names) =
      let rest = own_bridge names in
      if skipped name then rest else or_else (get_ipv4_from_interface name) rest

  -- resolveProxyTargetIP
  unfoldable pub resolve_proxy_target_ip : Text
  unfolding get_ipv4_from_interface compose_bridge own_bridge or_else names_of names_again or_local
  resolve_proxy_target_ip = or_local (
      or_else (get_ipv4_from_interface (codes "docker0")) (
        or_else (compose_bridge (names_of net.interfaces))
          (own_bridge (names_again net.interfaces net.interfaces_again))))

  -- The address of an interface that is not the loopback or the end of a container.
  pub record Bridged (a : Text) : Type 0 where
    pub name : Text
    pub found : get_ipv4_from_interface name ≡ some a
    pub usable :
        (text_eq name (codes "docker0") ≡ true)
        ⊎ (has_prefix name (codes "br-") ≡ true)
        ⊎ (skipped name ≡ false)

  compose_bridge-Bridged :
      (names : List Text) (a : Text) → compose_bridge names ≡ some a → Bridged a
  unfolding compose_bridge or_else
  compose_bridge-Bridged [] a h = absurd (cc)
  compose_bridge-Bridged (name ∷ names) a h = elim (Bool-cases (has_prefix name (codes "br-"))) [
    | inr e ↦ compose_bridge-Bridged names a (rw e at h)
    | inl e ↦ elim (Option-cases (get_ipv4_from_interface name)) [
      | inl f ↦ compose_bridge-Bridged names a (rw (e, f) at h)
      | inr (b, f) ↦
          let same : some b ≡ some a = rw (e, f) at h in
          record { name = name; found = f ∙ same; usable = inr (inl e) }
    ]
  ]

  own_bridge-Bridged : (names : List Text) (a : Text) → own_bridge names ≡ some a → Bridged a
  unfolding own_bridge or_else
  own_bridge-Bridged [] a h = absurd (cc)
  own_bridge-Bridged (name ∷ names) a h = elim (Bool-cases (skipped name)) [
    | inl e ↦ own_bridge-Bridged names a (rw e at h)
    | inr e ↦ elim (Option-cases (get_ipv4_from_interface name)) [
      | inl f ↦ own_bridge-Bridged names a (rw (e, f) at h)
      | inr (b, f) ↦
          let same : some b ≡ some a = rw (e, f) at h in
          record { name = name; found = f ∙ same; usable = inr (inr e) }
    ]
  ]

  or_local-Bridged :
      (x y z : Option Text)
      → ((a : Text) → x ≡ some a → Bridged a)
      → ((a : Text) → y ≡ some a → Bridged a)
      → ((a : Text) → z ≡ some a → Bridged a)
      → (or_local (or_else x (or_else y z)) ≡ codes "127.0.0.1")
        ⊎ Bridged (or_local (or_else x (or_else y z)))
  unfolding or_local or_else
  or_local-Bridged (some a) y z f g h = inr (f a refl)
  or_local-Bridged none (some a) z f g h = inr (g a refl)
  or_local-Bridged none none (some a) f g h = inr (h a refl)
  or_local-Bridged none none none f g h = inl refl

  -- The target address is the loopback's, or an IPv4 address of the bridge docker0, of a Compose
  -- bridge, or of an interface that is neither the loopback, a bridge of Docker nor the end of a
  -- container.
  pub resolve_proxy_target_ip-Bridged :
      (resolve_proxy_target_ip ≡ codes "127.0.0.1") ⊎ Bridged resolve_proxy_target_ip
  unfolding resolve_proxy_target_ip
  resolve_proxy_target_ip-Bridged =
      or_local-Bridged _ _ _
        (λ a h. record { name = codes "docker0"; found = h; usable = inl (docker0_name) })
        (compose_bridge-Bridged (names_of net.interfaces))
        (own_bridge-Bridged (names_again net.interfaces net.interfaces_again))
