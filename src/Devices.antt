-- ===== src/Devices.antt =====
-- The loop `for(i=0; i<ctxt->numDevices; i++)` over a thread's devices, and the devices found ready.
use toy_softswitch.Prelude.{
  ℕ, zero, suc, ◌+◌, ◌<◌, ◌≤◌, ◌≡◌, refl, false, Option, some, List, [], ◌∷◌, ◌++◌, arith, ◌==◌,
  if◌then◌else◌, ◌>>=◌, Yields, Yields_bind, has, subst, Bool-cases, inl, inr, has-append,
}
use toy_softswitch.Context.{App, PThreadContext}
use toy_softswitch.Rts.{any_ready}

module _ {A : App} where
  -- `n` rounds from device `i` on.
  unfoldable pub each_device :
      (PThreadContext A → ℕ → Option (PThreadContext A))
      → ℕ
      → ℕ
      → PThreadContext A
      → Option (PThreadContext A)
  each_device body zero i c = some c
  each_device body (suc n) i c = do c ← body c i; each_device body n (i + 1) c

  pub each_device_inv :
      (body : PThreadContext A → ℕ → Option (PThreadContext A)) (P : ℕ → PThreadContext A → Type 0)
      (last : ℕ)
      → ((i : ℕ) (c : PThreadContext A) → i < last → P i c → Yields (body c i) (P (suc i)))
      → (n i : ℕ) (c : PThreadContext A) → i + n ≡ last
      → P i c
      → Yields (each_device body n i c) (P last)
  unfolding each_device
  each_device_inv body P last keep zero i c e p =
      let done : i ≡ last = omega arith in subst (λ k. P k c) done p
  each_device_inv body P last keep (suc n) i c e p =
      Yields_bind (body c i) _ (P last) (keep i c (omega arith) p) λ c' p'.
        let next : suc i ≡ i + 1 = omega arith in
        each_device_inv body P last keep n (i + 1) c' (omega arith) (subst (λ k. P k c') next p')

-- The ready devices below `n`, in the order of their indices.
abbrev pub ready_below : (ℕ → ℕ) → ℕ → List ℕ
ready_below flags zero = []
ready_below flags (suc n) =
    if any_ready (flags n) then ready_below flags n ++ n ∷ [] else ready_below flags n

pub not-has-ready_below : (flags : ℕ → ℕ) (n i : ℕ) → n ≤ i → has i (ready_below flags n) ≡ false
not-has-ready_below flags zero i h = refl
not-has-ready_below flags (suc n) i h =
    ground (arith, not-has-ready_below flags n i, has-append i (ready_below flags n) (n ∷ []))

pub has-ready_below :
    (flags : ℕ → ℕ) (n i : ℕ) → i < n → has i (ready_below flags n) ≡ any_ready (flags i)
has-ready_below flags zero i h = absurd (omega arith)
has-ready_below flags (suc n) i h = elim (Bool-cases (i == n)) [
  | inl here ↦
      let same : i ≡ n = ground arith in
      rw same
        (ground (arith, not-has-ready_below flags n n, has-append n (ready_below flags n) (n ∷ [])))
  | inr there ↦
      ground (arith, has-ready_below flags n i, has-append i (ready_below flags n) (n ∷ []))
]

pub ready_below_congr :
    (flags flags' : ℕ → ℕ) (n : ℕ)
    → ((i : ℕ) → i < n → flags' i ≡ flags i)
    → ready_below flags' n ≡ ready_below flags n
ready_below_congr flags flags' zero same = refl
ready_below_congr flags flags' (suc n) same =
    rw (same n (omega arith), ready_below_congr flags flags' n (λ i h. same i (omega arith))) refl
