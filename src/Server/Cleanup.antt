-- ===== src/Server/Cleanup.antt =====
-- The clients that the server forgets.
use sik_screenworms.Base.{
  ℕ, ◌-◌, ◌≡◌, refl, sym, subst, ◌∙◌, arith, inl, inr, Bool, true, false, List, [], ◌∷◌, Str, none,
  some, if◌then◌else◌, find, contains, erase, find-erase, keys, IsNodup, mem, mem-keys, ◌==s◌,
  ==s_iff, Bool-cases, ltb,
}
use sik_screenworms.MqManager.{Fingerprint}
use sik_screenworms.GameManager.State.{Platform}
use sik_screenworms.GameManager.Handlers.{drop_connection}
use sik_screenworms.Server.{Server, is_expired, drop_expired, cleanup_obsolete_connections}

-- The list has an entry of `f` that is too old.
expired_in : ℕ → Str → List (Str × ℕ) → Bool
expired_in now f [] = false
expired_in now f ((h, last) ∷ rest) =
    if is_expired now last
    then (if h ==s f then true else expired_in now f rest)
    else expired_in now f rest

erased {ℓ} :
    {V : Type ℓ} (h f : Str) (m : List (Str × V)) (x : Bool)
    → (if x then none else find f (erase h m))
      ≡ (if (if h ==s f then true else x) then none else find f m)
erased h f m x = elim (Bool-cases (h ==s f)) [
  | inl same ↦ elim (Bool-cases x) [
    | inl on ↦ rw (on, same) refl
    | inr off ↦ rw (off, find-erase h f m, same) refl
  ]
  | inr differ ↦ elim (Bool-cases x) [
    | inl on ↦ rw (on, differ) refl
    | inr off ↦ rw (off, find-erase h f m, differ) refl
  ]
]

module _ (pl : Platform) {Address : Type 0} (now : ℕ) (f : Fingerprint) where
  drop_expired-find :
      (entries : List (Str × ℕ)) (s : Server pl.Double Address)
      → (find f (drop_expired pl now entries s).last_communication_ts
          ≡ (if expired_in now f entries then none else find f s.last_communication_ts))
        × (find f (drop_expired pl now entries s).client_addrs
            ≡ (if expired_in now f entries then none else find f s.client_addrs))
  unfolding drop_expired expired_in
  drop_expired-find [] s = (refl, refl)
  drop_expired-find ((h, last) ∷ entries) s = elim (Bool-cases (is_expired now last)) [
    | inr fresh ↦ rw (fresh, drop_expired) (drop_expired-find entries s)
    | inl old ↦
        let s' : Server pl.Double Address = record s {
          game_manager = drop_connection h s.game_manager;
          client_addrs = erase h s.client_addrs;
          last_communication_ts = erase h s.last_communication_ts;
        } in
        let (times, addrs) = drop_expired-find entries s' in
        rw (old, drop_expired)
          (
            times ∙ erased h f s.last_communication_ts (expired_in now f entries),
            addrs ∙ erased h f s.client_addrs (expired_in now f entries),
          )
  ]

absent-expired_in :
    (now : ℕ) (f : Str) (entries : List (Str × ℕ))
    → contains f entries ≡ false
    → expired_in now f entries ≡ false
unfolding expired_in contains
absent-expired_in now f [] h = refl
absent-expired_in now f ((k, last) ∷ entries) h = ground (arith, absent-expired_in now f entries)

expired_in-later :
    (now : ℕ) (f : Str) (t last : ℕ) (entries : List (Str × ℕ))
    → expired_in now f entries ≡ is_expired now t
    → (if is_expired now last then expired_in now f entries else expired_in now f entries)
      ≡ is_expired now t
expired_in-later now f t last entries h = ground arith

expired_in-find :
    (now : ℕ) (f : Str) (t : ℕ) (entries : List (Str × ℕ))
    → IsNodup (keys entries)
    → find f entries ≡ some t
    → expired_in now f entries ≡ is_expired now t
unfolding expired_in find
expired_in-find now f t [] n e = cc
expired_in-find now f t ((k, last) ∷ entries) (here, n) e = elim (Bool-cases (k ==s f)) [
  | inl same ↦
      let found : some last ≡ some t = rw same at e in
      let equal : last ≡ t = cc in
      let absent : contains f entries ≡ false =
        sym (mem-keys f entries)
        ∙ subst (λ x. mem x (keys entries) ≡ false) ((==s_iff k f).0 same) here in
      rw (same, equal, absent-expired_in now f entries absent) (ground arith)
  | inr differ ↦
      rw differ
        (expired_in-later now f t last entries (expired_in-find now f t entries n (rw differ at e)))
]

-- Of each client with a time stamp, if no client has two, exactly those are forgotten whose last
-- datagram is more than two seconds old: their time stamp and their address are removed; the others
-- keep the time stamp, and the address if there is one.
pub cleanup_obsolete_connections-find :
    (pl : Platform) {Address : Type 0} (now t : ℕ) (f : Fingerprint) (s : Server pl.Double Address)
    → IsNodup (keys s.last_communication_ts)
    → find f s.last_communication_ts ≡ some t
    → (find f (cleanup_obsolete_connections pl now s).last_communication_ts
        ≡ (if ltb 2000000 (now - t) then none else some t))
      × (find f (cleanup_obsolete_connections pl now s).client_addrs
          ≡ (if ltb 2000000 (now - t) then none else find f s.client_addrs))
unfolding cleanup_obsolete_connections is_expired
cleanup_obsolete_connections-find pl now t f s n e =
    let (times, addrs) = drop_expired-find pl now f s.last_communication_ts s in
    let age : expired_in now f s.last_communication_ts ≡ ltb 2000000 (now - t) =
      expired_in-find now f t s.last_communication_ts n e in
    (times ∙ rw (age, e) refl, addrs ∙ rw age refl)
