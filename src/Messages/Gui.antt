-- ===== src/Messages/Gui.antt =====
-- eventToMessageForGui: the line that an event becomes for the user interface.
use sik_screenworms.Base.{
  ℕ, zero, suc, ◌+◌, ◌%◌, List, [], ◌∷◌, ◌++◌, Str, codes, length, Outcome, ok, fail, runtime_error,
  ◌>>=◌, deref, find_at,
}
use sik_screenworms.Common.Decimal.{to_decimal}
use sik_screenworms.Messages.{
  Event, EventType, new_game, pixel, player_eliminated, game_over, unknown, GameEventVariant,
  in_new_game, in_pixel, in_player_eliminated,
}

-- `os << ' ' << playerNames.find (i)->second` for the `n` numbers from `i` on, of type `uint8_t`.
unfoldable pub list_names : ℕ → ℕ → List (ℕ × Str) → Outcome Str
list_names zero i names = ok []
list_names (suc n) i names =
    let rest = list_names n (i + 1) names in
    deref (find_at i names) >>= λ name. rest >>= λ more. ok (b' ' ∷ (name ++ more))

unfoldable pub gui_line : EventType → GameEventVariant → List (ℕ × Str) → Outcome Str
unfolding list_names
gui_line new_game (in_new_game d) names = list_names (length names % 256) 0 names >>= λ listed. ok (
    codes "NEW_GAME "
    ++ (to_decimal d.maxx ++ b' ' ∷ (to_decimal d.maxy ++ (listed ++ b'\n' ∷ []))))
gui_line pixel (in_pixel d) names = deref (find_at d.player_number names) >>= λ name.
    ok
      (codes "PIXEL " ++ (to_decimal d.x ++ b' ' ∷ (to_decimal d.y ++ b' ' ∷ (name ++ b'\n' ∷ []))))
gui_line player_eliminated (in_player_eliminated d) names =
    deref (find_at d.player_number names) >>= λ name.
    ok (codes "PLAYER_ELIMINATED " ++ (name ++ b'\n' ∷ []))
gui_line game_over _ names = ok []
gui_line unknown _ names = ok []
gui_line _ _ names = fail runtime_error

unfoldable pub event_to_message_for_gui : Event → List (ℕ × Str) → Outcome Str
unfolding gui_line
event_to_message_for_gui e names = gui_line e.event_type e.event_data names
