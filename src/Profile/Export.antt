-- ===== src/Profile/Export.antt =====
-- src/softswitch/softswitch_perfmon.cpp: the counters as a line of text. Nothing calls it.
--
-- `print` is the text of the format with its ten numbers, of any length; vsnprintf writes as much of a
-- text as there is room for and returns the length of the whole.
use toy_softswitch.Prelude.{
  ℕ, zero, suc, length-append, ◌+◌, ◌-◌, ◌≤◌, ◌<◌, ◌≡◌, refl, List, [], ◌∷◌, ◌++◌, arith, leb, inl,
  inr, if◌then◌else◌, Bool-cases, length, take,
}
use toy_softswitch.Context.{App, PThreadContext}
use toy_softswitch.Rts.Perf.{with_perf}
use toy_softswitch.Profile.{zero_profile_counters}

-- `left`, and what stands before `dst`.
pub record Line : Type 0 where
  pub left : ℕ
  pub text : List ℕ

abbrev pub append_profile_printf : Line → List ℕ → Line
append_profile_printf l msg =
    let done = (if leb l.left (length msg) then l.left - 1 else length msg) in
    record { left = l.left - done; text = l.text ++ take done msg }

module _ {A : App} where
  -- The second part is what `tinsel_puts` is given.
  pub perfmon_flush_counters : (List ℕ → List ℕ) → ℕ → PThreadContext A → PThreadContext A × List ℕ
  perfmon_flush_counters print tinsel_id c =
      let k = c.perf in
      let line =
        append_profile_printf (record { left = 256 - 3; text = [] })
          (print (
            tinsel_id ∷ k.thread_cycles ∷ k.send_blocked_cycles ∷ k.recv_blocked_cycles
            ∷ k.idle_cycles ∷ k.perfmon_cycles ∷ k.send_cycles ∷ k.send_handler_cycles
            ∷ k.recv_cycles ∷ k.recv_handler_cycles ∷ [])) in
      (
        with_perf (record zero_profile_counters { thread_cycles_tstart = k.thread_cycles_tstart })
            c,
        line.text,
      )

length-take : (n : ℕ) (xs : List ℕ) → n ≤ length xs → length (take n xs) ≡ n
length-take zero xs h = refl
length-take (suc n) [] h = absurd (omega arith)
length-take (suc n) (x ∷ xs) h = omega (arith, length-take n xs (omega arith))

-- The line stays within its buffer: there is always room for the zero at its end.
append_profile_printf-left :
    (l : Line) (msg : List ℕ)
    → 0 < l.left
    → (0 < (append_profile_printf l msg).left)
      × ((append_profile_printf l msg).left + length (append_profile_printf l msg).text
          ≡ l.left + length l.text)
append_profile_printf-left l msg h = elim (Bool-cases (leb l.left (length msg))) [
  | inl full ↦
      let cut = length-take (l.left - 1) msg (ground arith) in
      rw (full, length-append l.text (take (l.left - 1) msg), cut) (omega arith, omega arith)
  | inr fits ↦
      let whole = length-take (length msg) msg (omega arith) in
      let short : length msg < l.left = ground arith in
      rw (fits, length-append l.text (take (length msg) msg), whole) (omega arith, omega arith)
]
