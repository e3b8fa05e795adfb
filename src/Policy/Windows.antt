-- ===== src/Policy/Windows.antt =====
-- What recording and withdrawing a call do to the windows.
use cloakpipe.Base.{
  ℕ, suc, ◌+◌, ◌<◌, String, ◌≡◌, refl, ◌∙◌, ap, Bool, false, not, ◌&&◌, List, [], ◌∷◌, ◌++◌, filter,
  All, ltb, nat_eq, ◌==◌, if◌then◌else◌, arith,
}
use cloakpipe.Policy.Counters.{
  GateCall, Counters, is_recent, record_call, forget, count_calls, in_window, window, day, hour,
}

count_calls-append :
    (p : GateCall → Bool) (cs : List GateCall) (c : GateCall)
    → count_calls p (cs ++ c ∷ []) ≡ count_calls p cs + (if p c then 1 else 0)
unfolding count_calls
count_calls-append p [] c = ground arith
count_calls-append p (x ∷ cs) c = ground (arith, count_calls-append p cs c)

-- Rows that a filter drops do not count where the test fails on them.
count_calls-filter :
    (p keep : GateCall → Bool) (cs : List GateCall)
    → ((c : GateCall) → keep c ≡ false → p c ≡ false)
    → count_calls p (filter keep cs) ≡ count_calls p cs
unfolding count_calls
count_calls-filter p keep [] only = refl
count_calls-filter p keep (x ∷ cs) only = ground (arith, only x, count_calls-filter p keep cs only)

-- Recording a call at a time adds one to the windows of its own tool at that time, and leaves those
-- of every other tool and release as they were: the rows that it deletes are in no window.
pub window-record_call :
    (s : Counters) (release tool release' tool' : String) (now : ℕ)
    → window (record_call s release tool now).1 release' tool' now ≡ (
        if release == release' && tool == tool'
        then record {
          last_1h = suc (window s release' tool' now).last_1h;
          last_24h = suc (window s release' tool' now).last_24h;
        }
        else window s release' tool' now)
unfolding window record_call
window-record_call s release tool release' tool' now =
    let new : GateCall = record { id = s.next_id; release = release; tool = tool; at = now } in
    let p₁ = λ (c : GateCall). in_window release' tool' day now c && ltb now (c.at + hour) in
    let p₂ = in_window release' tool' day now in
    ground (
      arith,
      count_calls-append p₁ (filter (is_recent now) s.calls) new,
      count_calls-append p₂ (filter (is_recent now) s.calls) new,
      count_calls-filter p₁ (is_recent now) s.calls (λ c e. ground arith),
      count_calls-filter p₂ (is_recent now) s.calls (λ c e. ground arith),
    )

-- Every id is below the next.
abbrev pub HasFreshId : Counters → Type 0
HasFreshId s = All (λ (c : GateCall). c.id < s.next_id) s.calls

filter-fresh :
    (n : ℕ) (cs : List GateCall)
    → All (λ (c : GateCall). c.id < n) cs
    → (keep : GateCall → Bool)
    → filter (λ (c : GateCall). not (nat_eq c.id n)) (filter keep cs) ≡ filter keep cs
filter-fresh n [] h keep = refl
filter-fresh n (c ∷ cs) (below, rest) keep = ground (arith, filter-fresh n cs rest keep)

filter-append_last :
    (n : ℕ) (cs : List GateCall) (c : GateCall)
    → c.id ≡ n
    → filter (λ (x : GateCall). not (nat_eq x.id n)) (cs ++ c ∷ [])
      ≡ filter (λ (x : GateCall). not (nat_eq x.id n)) cs
filter-append_last n [] c e = ground arith
filter-append_last n (x ∷ cs) c e = ground (arith, filter-append_last n cs c e)

-- Where every stored id is below the next one, withdrawing the call that was just recorded leaves
-- every window at its time as it was before.
pub forget-record_call :
    (s : Counters) (release tool release' tool' : String) (now : ℕ)
    → HasFreshId s
    → window
        (forget (record_call s release tool now).1 (record_call s release tool now).0)
        release'
        tool'
        now
      ≡ window s release' tool' now
unfolding window record_call forget
forget-record_call s release tool release' tool' now fresh =
    let new : GateCall = record { id = s.next_id; release = release; tool = tool; at = now } in
    let p₁ = λ (c : GateCall). in_window release' tool' day now c && ltb now (c.at + hour) in
    let p₂ = in_window release' tool' day now in
    let rows =
      filter-append_last s.next_id (filter (is_recent now) s.calls) new refl
      ∙ filter-fresh s.next_id s.calls fresh (is_recent now) in
    ground (
      arith,
      ap (count_calls p₁) rows,
      ap (count_calls p₂) rows,
      count_calls-filter p₁ (is_recent now) s.calls (λ c e. ground arith),
      count_calls-filter p₂ (is_recent now) s.calls (λ c e. ground arith),
    )
