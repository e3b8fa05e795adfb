-- ===== src/Policy/Counters.antt =====
-- crates/cloakpipe-policy/src/counters.rs: the calls forwarded in the last hour and the last day.
-- Times are seconds; a time less a window is written as a sum on the other side.
use cloakpipe.Base.{
  ℕ, suc, ◌+◌, ◌*◌, String, Bool, not, ◌&&◌, List, [], ◌∷◌, ◌++◌, map, filter, ltb, leb, nat_eq,
  ◌==◌, if◌then◌else◌,
}

abbrev pub hour : ℕ
hour = 3600

abbrev pub day : ℕ
day = 24 * 3600

pub record Window : Type 0 where
  pub last_1h : ℕ
  pub last_24h : ℕ

-- A row of `gate_calls`.
pub record GateCall : Type 0 where
  pub id : ℕ
  pub release : String
  pub tool : String
  pub at : ℕ

-- The table, and the id that AUTOINCREMENT gives next.
pub record Counters : Type 0 where
  pub calls : List GateCall
  pub next_id : ℕ

-- `DELETE … WHERE at <= at_unix - DAY`
abbrev pub is_recent : ℕ → GateCall → Bool
is_recent at_unix c = not (leb (c.at + day) at_unix)

unfoldable pub record_call : Counters → String → String → ℕ → ℕ × Counters
record_call s release tool at_unix = (
  s.next_id,
  record {
    calls =
        filter (is_recent at_unix) s.calls
        ++ record { id = s.next_id; release = release; tool = tool; at = at_unix } ∷ [];
    next_id = suc s.next_id;
  },
)

unfoldable pub forget : Counters → ℕ → Counters
forget s id = record s { calls = filter (λ (c : GateCall). not (nat_eq c.id id)) s.calls }

unfoldable pub count_calls : (GateCall → Bool) → List GateCall → ℕ
count_calls p [] = 0
count_calls p (c ∷ cs) = let n = count_calls p cs in if p c then suc n else n

-- The calls of a tool in `(now - span, now]`.
abbrev pub in_window : String → String → ℕ → ℕ → GateCall → Bool
in_window release tool span now c =
    c.release == release && c.tool == tool && ltb now (c.at + span) && leb c.at now

unfoldable pub window : Counters → String → String → ℕ → Window
unfolding count_calls
window s release tool now = record {
  last_1h = count_calls (λ c. in_window release tool day now c && ltb now (c.at + hour)) s.calls;
  last_24h = count_calls (in_window release tool day now) s.calls;
}

-- `snapshot`: the windows of each tool, in order.
unfoldable pub snapshot : Counters → String → List String → ℕ → List (String × Window)
unfolding window
snapshot s release tools now = map (λ tool. (tool, window s release tool now)) tools
