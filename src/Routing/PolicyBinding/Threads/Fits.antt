-- ===== src/Routing/PolicyBinding/Threads/Fits.antt =====
-- What the writer's place and what a worker has read say of a binding, while no other thread
-- publishes.
use alpha_smart_router.Base.{
  ℕ, suc, ◌+◌, ◌*◌, ◌%◌, ◌^◌, ◌≤◌, ◌<◌, ◌≡◌, ◌-◌, refl, none, some, arith,
}
use alpha_smart_router.Routing.PolicyBinding.{ChooseFn, PolicyBinding}
use alpha_smart_router.Routing.PolicyBinding.Threads.{
  Update, Writer, Reader, finished, fn_of, state_of, store_one, store_other,
}

abbrev pub IsIdle : Writer → Type 0
IsIdle Writer.idle = Unit
IsIdle w = ⊥

module _ (class : ℕ → ChooseFn) (s0 : ℕ) where
  abbrev pub Holds : Update → PolicyBinding → Type 0
  Holds u b = (b.fn ≡ fn_of class u) × (b.state ≡ state_of class u)

  -- The pointer that `u` stores first.
  abbrev pub HoldsOne : Update → PolicyBinding → Type 0
  HoldsOne (Update.publish policy) b = b.state ≡ some policy
  HoldsOne Update.clear b = b.fn ≡ none

  abbrev Busy : (n began : ℕ) → PolicyBinding → Type 0
  Busy n began b = (b.seq ≡ (s0 + 2 * n) % 2 ^ 32 + 1) × (began ≡ (s0 + 2 * n) % 2 ^ 32)

  -- With `n` updates finished.
  abbrev pub WriterFits : ℕ → PolicyBinding → Update → Writer → Type 0
  WriterFits n b last Writer.idle = (b.seq ≡ (s0 + 2 * n) % 2 ^ 32) × Holds last b
  WriterFits n b last (Writer.entered u began) = Busy n began b
  WriterFits n b last (Writer.one_stored u began) = Busy n began b × HoldsOne u b
  WriterFits n b last (Writer.both_stored u began) = Busy n began b × Holds u b

  abbrev pub Began : (n s1 since : ℕ) → Type 0
  Began n s1 since = (since ≤ n) × (s1 ≡ (s0 + 2 * (n - since)) % 2 ^ 32)

  -- While no update finished since the first load, and the writer is idle, what was read is what the
  -- last update stored.
  abbrev pub ReaderFits : ℕ → Update → Writer → Reader → Type 0
  ReaderFits n last w (Reader.read_seq left s1 since) = Began n s1 since
  ReaderFits n last w (Reader.read_fn left s1 since fn) =
      Began n s1 since × (since ≡ 0 → IsIdle w → fn ≡ fn_of class last)
  ReaderFits n last w (Reader.read_state left s1 since fn st) =
      Began n s1 since
      × (since ≡ 0 → IsIdle w → (fn ≡ fn_of class last) × (st ≡ state_of class last))
  ReaderFits n last w (Reader.accepted since fn st latest) =
      since < 2 ^ 31 → (fn ≡ fn_of class latest) × (st ≡ state_of class latest)
  ReaderFits n last w r = Unit

  -- The writer stays or becomes busy.
  pub ReaderFits-busy :
      (n : ℕ) (last : Update) (w w' : Writer) (r : Reader)
      → (IsIdle w' → ⊥)
      → ReaderFits n last w r
      → ReaderFits n last w' r
  ReaderFits-busy n last w w' (Reader.trying left) busy fits = tt
  ReaderFits-busy n last w w' (Reader.read_seq left s1 since) busy fits = fits
  ReaderFits-busy n last w w' (Reader.read_fn left s1 since fn) busy (began, clean) =
      (began, λ e i. absurd (busy i))
  ReaderFits-busy n last w w' (Reader.read_state left s1 since fn st) busy (began, clean) =
      (began, λ e i. absurd (busy i))
  ReaderFits-busy n last w w' (Reader.accepted since fn st latest) busy fits = fits
  ReaderFits-busy n last w w' Reader.failed busy fits = tt

  Began-suc : (n s1 since : ℕ) → Began n s1 since → Began (suc n) s1 (suc since)
  Began-suc n s1 since (few, e) = (omega arith, omega arith)

  pub ReaderFits-finished :
      (n : ℕ) (last u : Update) (w : Writer) (r : Reader)
      → ReaderFits n last w r
      → ReaderFits (suc n) u Writer.idle (finished r)
  ReaderFits-finished n last u w (Reader.trying left) fits = tt
  ReaderFits-finished n last u w (Reader.read_seq left s1 since) fits = Began-suc n s1 since fits
  ReaderFits-finished n last u w (Reader.read_fn left s1 since fn) (began, clean) =
      (Began-suc n s1 since began, λ e i. absurd (omega (arith, e)))
  ReaderFits-finished n last u w (Reader.read_state left s1 since fn st) (began, clean) =
      (Began-suc n s1 since began, λ e i. absurd (omega (arith, e)))
  ReaderFits-finished n last u w (Reader.accepted since fn st latest) fits = fits
  ReaderFits-finished n last u w Reader.failed fits = tt

  -- What an idle writer's binding holds.
  pub WriterFits-idle :
      (n : ℕ) (b : PolicyBinding) (last : Update) (w : Writer)
      → WriterFits n b last w
      → IsIdle w
      → Holds last b
  WriterFits-idle n b last Writer.idle fits i = fits.1
  WriterFits-idle n b last (Writer.entered u began) fits i = absurd i
  WriterFits-idle n b last (Writer.one_stored u began) fits i = absurd i
  WriterFits-idle n b last (Writer.both_stored u began) fits i = absurd i

  pub HoldsOne-store : (u : Update) (b : PolicyBinding) → HoldsOne u (store_one class u b)
  HoldsOne-store (Update.publish policy) b = refl
  HoldsOne-store Update.clear b = refl

  pub Holds-store :
      (u : Update) (b : PolicyBinding) → HoldsOne u b → Holds u (store_other class u b)
  Holds-store (Update.publish policy) b one = (refl, one)
  Holds-store Update.clear b one = (one, refl)

  pub store_one-seq : (u : Update) (b : PolicyBinding) → (store_one class u b).seq ≡ b.seq
  store_one-seq (Update.publish policy) b = refl
  store_one-seq Update.clear b = refl

  pub store_other-seq : (u : Update) (b : PolicyBinding) → (store_other class u b).seq ≡ b.seq
  store_other-seq (Update.publish policy) b = refl
  store_other-seq Update.clear b = refl
