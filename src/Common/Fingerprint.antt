-- ===== src/Common/Fingerprint.antt =====
-- common/fingerprint.cpp: the text that stands for a client's address. `inet_ntop` is a parameter.
use sik_screenworms.Base.{
  ℕ, ◌+◌, ◌*◌, ◌^◌, ◌<◌, ◌≡◌, refl, sym, ap, ◌∙◌, arith, Bool, true, not, List, [], ◌∷◌, ◌++◌, Str,
  all, ◌==◌, Option, none, some, ok-injective,
}
use sik_screenworms.Common.Misc.{str_to_u64}
use sik_screenworms.Common.Decimal.{to_decimal, str_to_u64-to_decimal}

-- AF_INET and AF_INET6
pub data Family : Type 0 where
  inet : Family
  inet6 : Family

-- What is read of a `sockaddr`: its family, and in the part that belongs to it the address and the
-- two bytes of the port.
pub record SockAddr : Type 0 where
  pub family : Family
  pub in_addr : List ℕ
  pub port_high : ℕ
  pub port_low : ℕ

-- `be16toh`
unfoldable pub get_in_port : SockAddr → ℕ
get_in_port sa = sa.port_high * 256 + sa.port_low

unfoldable pub fingerprint_netuser : (Family → List ℕ → Option Str) → SockAddr → Str
unfolding get_in_port
fingerprint_netuser inet_ntop addr = elim (inet_ntop addr.family addr.in_addr) [
  | none ↦ []
  | some s ↦ s ++ b'_' ∷ to_decimal (get_in_port addr)
]

abbrev pub is_free : Str → Bool
is_free = all (λ c. not (c == b'_'))

-- What is known of `inet_ntop`: the text of an address is made of digits, letters, dots and colons,
-- and determines the address.
unfoldable pub IsPresentation : (Family → List ℕ → Option Str) → Type 0
IsPresentation inet_ntop =
    ((f : Family) (a : List ℕ) (s : Str) → inet_ntop f a ≡ some s → is_free s ≡ true)
    × ((f g : Family) (a b : List ℕ) (s : Str)
        → inet_ntop f a ≡ some s
        → inet_ntop g b ≡ some s
        → (f ≡ g) × (a ≡ b))

-- What stands before the first `_`, and what stands behind it.
cut :
    (s t : Str) (d e : Str)
    → is_free s ≡ true
    → is_free t ≡ true
    → s ++ b'_' ∷ d ≡ t ++ b'_' ∷ e
    → (s ≡ t) × (d ≡ e)
cut [] [] d e hs ht h = (refl, cc h)
cut [] (c ∷ t) d e hs ht h = let same : b'_' ≡ c = cc h in absurd (ground (arith, same))
cut (c ∷ s) [] d e hs ht h = let same : c ≡ b'_' = cc h in absurd (ground (arith, same))
cut (c ∷ s) (k ∷ t) d e hs ht h =
    let same : c ≡ k = cc h in
    let rest : s ++ b'_' ∷ d ≡ t ++ b'_' ∷ e = cc h in
    let left : is_free s ≡ true = ground arith in
    let right : is_free t ≡ true = ground arith in
    let (before, behind) = cut s t d e left right rest in
    (ap (◌∷◌ c) before ∙ ap (λ x. x ∷ t) same, behind)

same_port :
    (a b : SockAddr)
    → a.port_high < 256
    → a.port_low < 256
    → b.port_high < 256
    → b.port_low < 256
    → to_decimal (get_in_port a) ≡ to_decimal (get_in_port b)
    → (a.port_high ≡ b.port_high) × (a.port_low ≡ b.port_low)
unfolding get_in_port
same_port a b ah al bh bl h =
    let na : get_in_port a < 2 ^ 64 = omega (arith, ah, al) in
    let nb : get_in_port b < 2 ^ 64 = omega (arith, bh, bl) in
    let same : get_in_port a ≡ get_in_port b = ok-injective (
      sym (str_to_u64-to_decimal (get_in_port a) na)
      ∙ ap str_to_u64 h
      ∙ str_to_u64-to_decimal (get_in_port b) nb) in
    (omega (arith, same, ah, al, bh, bl), omega (arith, same, ah, al, bh, bl))

-- Where `inet_ntop` makes texts of both addresses, two clients have one fingerprint only if their
-- families, addresses and ports are the same.
pub fingerprint_netuser_injective :
    (inet_ntop : Family → List ℕ → Option Str) (a b : SockAddr) (s t : Str)
    → IsPresentation inet_ntop
    → a.port_high < 256
    → a.port_low < 256
    → b.port_high < 256
    → b.port_low < 256
    → inet_ntop a.family a.in_addr ≡ some s
    → inet_ntop b.family b.in_addr ≡ some t
    → fingerprint_netuser inet_ntop a ≡ fingerprint_netuser inet_ntop b
    → (a.family ≡ b.family)
      × (a.in_addr ≡ b.in_addr)
      × (a.port_high ≡ b.port_high)
      × (a.port_low ≡ b.port_low)
unfolding fingerprint_netuser IsPresentation
fingerprint_netuser_injective inet_ntop a b s t (free, determines) ah al bh bl ha hb h =
    let joined : s ++ b'_' ∷ to_decimal (get_in_port a) ≡ t ++ b'_' ∷ to_decimal (get_in_port b) =
      rw (fingerprint_netuser, ha, hb) at h in
    let (texts, ports) = cut s t _ _ (free _ _ s ha) (free _ _ t hb) joined in
    let (family, address) = determines _ _ _ _ t (ha ∙ ap (λ x. some x) texts) hb in
    let (high, low) = same_port a b ah al bh bl ports in (family, address, high, low)
