-- ===== src/Host/Ring.antt =====
-- The messages at consecutive places of a circular buffer.
use toy_softswitch.Prelude.{
  ℕ, zero, suc, ◌+◌, ◌-◌, ◌<◌, ◌≤◌, ◌≡◌, ◌≢◌, refl, ap, sym, ◌∙◌, false, List, [], ◌∷◌, ◌++◌, arith,
  ltb, ◌==◌, if◌then◌else◌, update, length,
}
use toy_softswitch.Context.Host.{HostMsg}
use toy_softswitch.Host.{hostbuffer_size, next_index}

-- The place `k` after `h`.
abbrev pub place : ℕ → ℕ → ℕ
place h k = if ltb (h + k) hostbuffer_size then h + k else h + k - hostbuffer_size

-- The `n` messages from place `h` on.
abbrev pub window : (ℕ → HostMsg) → ℕ → ℕ → List HostMsg
window buffer h zero = []
window buffer h (suc n) = buffer h ∷ window buffer (next_index h) n

pub length-window : (buffer : ℕ → HostMsg) (h n : ℕ) → length (window buffer h n) ≡ n
length-window buffer h zero = refl
length-window buffer h (suc n) = omega (arith, length-window buffer (next_index h) n)

place-next : (h k : ℕ) → h < 40 → k < 39 → place (next_index h) k ≡ place h (suc k)
place-next h k hh hk = ground arith

pub window-snoc :
    (buffer : ℕ → HostMsg) (h n : ℕ)
    → h < 40
    → n < 40
    → window buffer h (suc n) ≡ window buffer h n ++ buffer (place h n) ∷ []
window-snoc buffer h zero hh hn =
    let same : h ≡ place h 0 = ground arith in ap (λ i. buffer i ∷ []) same
window-snoc buffer h (suc n) hh hn =
    let next : next_index h < 40 = ground arith in
    let same : place (next_index h) n ≡ place h (suc n) = place-next h n hh (omega arith) in
    ap (buffer h ∷◌) (
      window-snoc buffer (next_index h) n next (omega arith)
      ∙ ap (λ i. window buffer (next_index h) n ++ buffer i ∷ []) same)

-- A write outside the window.
pub window-update :
    (buffer : ℕ → HostMsg) (t : ℕ) (m : HostMsg) (h n : ℕ)
    → h < 40
    → n ≤ 40
    → ((k : ℕ) → k < n → place h k ≢ t)
    → window (update buffer t m) h n ≡ window buffer h n
window-update buffer t m h zero hh hn out = refl
window-update buffer t m h (suc n) hh hn out =
    let at_head = out 0 (omega arith) in
    let here : (t == h) ≡ false = ground arith in
    let next : next_index h < 40 = ground arith in
    let rest =
      window-update buffer t m (next_index h) n next (omega arith)
        λ k hk e. out (suc k) (omega arith) (sym (place-next h k hh (omega arith)) ∙ e) in
    rw here (ap (buffer h ∷◌) rest)
