-- ===== src/CommandLine/Options.antt =====
-- What the options of a command line come to.
use sik_screenworms.Base.{
  ℕ, ◌≡◌, refl, ap, ◌∙◌, arith, Bool, true, false, List, [], ◌∷◌, Str, drop, ◌==◌, ◌==s◌, ==s_iff,
  if◌then◌else◌, Option, none, some, ok, find, insert_or_assign, find-insert_or_assign,
}
use sik_screenworms.CommandLine.{
  Returned, option, unrecognised, GetoptRun, read_options, interweave_with_colons,
  parse_cmd_parameters,
}

-- No call of `getopt` returned '?'.
unfoldable pub is_recognised : List Returned → Bool
is_recognised [] = true
is_recognised (option c arg ∷ returned) = is_recognised returned
is_recognised (unrecognised ∷ returned) = false

-- The argument of the last occurrence of the option, or what was there before.
pub last_value : ℕ → Option Str → List Returned → Option Str
last_value k before [] = before
last_value k before (option c arg ∷ returned) =
    last_value k (if c == k then some arg else before) returned
last_value k before (unrecognised ∷ returned) = last_value k before returned

same_key : (c k : ℕ) → ((c ∷ []) ==s (k ∷ [])) ≡ (c == k)
same_key c k = ground (arith, ==s_iff (c ∷ []) (k ∷ []))

read_options_from :
    (returned : List Returned) (before : List (Str × Str))
    → is_recognised returned ≡ true
    → (params : List (Str × Str)) × (read_options returned before ≡ ok params)
      × ((k : ℕ) → find (k ∷ []) params ≡ last_value k (find (k ∷ []) before) returned)
unfolding read_options is_recognised last_value
read_options_from [] before h = (before, refl, λ k. refl)
read_options_from (option c arg ∷ returned) before h =
    let (params, reads, last) =
      read_options_from returned (insert_or_assign (c ∷ []) arg before) h in
    (
      params,
      reads,
      λ k.
          last k
          ∙ ap (λ v. last_value k v returned)
              (find-insert_or_assign (c ∷ []) (k ∷ []) arg before
                ∙ ap (λ b. if b then some arg else find (k ∷ []) before) (same_key c k)),
    )
read_options_from (unrecognised ∷ returned) before h = cc

-- Where `getopt` recognises every option: `parseCmdParameters` returns a map in which each option
-- has the argument of its last occurrence, and the options that were not given have none, and the
-- arguments from `optind` on.
pub parse_cmd_parameters-last_value :
    (getopt : Str → List Str → GetoptRun) (argv : List Str) (accepted : Str)
    → is_recognised (getopt (interweave_with_colons accepted) argv).returned ≡ true
    → (params : List (Str × Str)) × (parse_cmd_parameters getopt argv accepted
        ≡ ok (
          params,
          drop
              (getopt (interweave_with_colons accepted) argv).optind
              (getopt (interweave_with_colons accepted) argv).argv,
        ))
      × ((k : ℕ)
          → find (k ∷ []) params
            ≡ last_value k none (getopt (interweave_with_colons accepted) argv).returned)
unfolding parse_cmd_parameters find
parse_cmd_parameters-last_value getopt argv accepted h =
    let (params, reads, last) =
      read_options_from (getopt (interweave_with_colons accepted) argv).returned [] h in
    (params, rw reads refl, last)
