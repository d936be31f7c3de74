-- ===== src/Bot/Bba.antt =====
-- src/bots/bba.rs: predicted auctions.
use bridge_table_service.Bot.{Clients}
use bridge_table_service.Bridge.{Call, Vulnerability, both, call_eq, east_west, nobody, north_south}
use bridge_table_service.Prelude.{
  Bool, List, Option, String, [], false, get_elem?, if◌then◌else◌, length, ltb, none, not, some,
  take, true, ◌&&◌, ◌==◌, ◌||◌, ◌∷◌,
}
use bridge_table_service.Table.{BoardSetup}

-- `==` on two slices of calls
unfoldable pub same_calls : List Call → List Call → Bool
same_calls [] [] = true
same_calls [] (d ∷ ds) = false
same_calls (c ∷ cs) [] = false
same_calls (c ∷ cs) (d ∷ ds) = c == d && same_calls cs ds

-- `continuation`
unfoldable pub continuation : Option (List Call) → List Call → Option Call
unfolding same_calls
continuation none calls = none
continuation (some predicted) calls =
    if ltb (length calls) (length predicted) && same_calls (take (length calls) predicted) calls
    then get_elem? predicted (length calls)
    else none

-- `BbaClient::generate`, from the parsed answer on
pub generate : Clients → BoardSetup → List Call → Option (List Call)
unfolding same_calls
generate clients board calls = elim (clients.auction board calls) [
  | none ↦ none
  | some predicted ↦
      if ltb (length predicted) (length calls)
        || not (same_calls (take (length calls) predicted) calls)
      then none
      else some predicted
]

-- `vul_to_bba`
pub vul_to_bba : Vulnerability → String
vul_to_bba nobody = "None"
vul_to_bba north_south = "NS"
vul_to_bba east_west = "EW"
vul_to_bba both = "Both"
