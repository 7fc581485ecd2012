-- ===== src/App/Handler/BatchFaults.antt =====
-- What `mongoHandler.Handle` of main.go makes of several requests.
use tcp_port.Base.Reader.{Read, done, failed}
use tcp_port.Base.{suc, zero}
use tcp_port.App.Handler.Batches.{replies}
use tcp_port.Base.{
  List, [], ap, append-nil, append_assoc, arith, false, length, refl, ℕ, ◌++◌, ◌∙◌, ◌∷◌, ◌≡◌, ◌≤◌,
}
use tcp_port.Base.Outcome.{Error}
use tcp_port.Base.Slice.{Bytes}
use tcp_port.Tcp.Stream.{read}

-- A reader takes these values from `s`, and `t` is left.
abbrev pub Reads : {A : Type 0} → Read A → List A → Bytes → Bytes → Type 0
Reads read [] s t = s ≡ t
Reads read (a ∷ bs) s t = (r : Bytes) × (read s ≡ done a r) × Reads read bs r t

-- The texts of responses, from call `i` of the clock on.
unfoldable pub shown : {A : Type 0} → (ℕ → A → Bytes) → ℕ → List A → Bytes
shown show i [] = []
shown show i (a ∷ bs) = show i a ++ shown show (suc i) bs

module _ {A : Type 0} (read : Read A) (show : ℕ → A → Bytes) (x : Error)
    (ends : read [] ≡ failed x []) where
  replies-none : (n i : ℕ) (buf : Bytes) → replies read show (λ a. false) n i buf [] ≡ done buf []
  unfolding replies
  replies-none zero i buf = refl
  replies-none (suc n) i buf = rw ends refl

  -- All responses that there are go to the buffer, when there are no more than the loop takes.
  pub replies-all :
      (bs : List A) (n i : ℕ) (buf s : Bytes)
      → Reads read bs s []
      → length bs ≤ n
      → replies read show (λ a. false) n i buf s ≡ done (buf ++ shown show i bs) []
  unfolding shown replies
  replies-all [] n i buf s h k = rw (h, append-nil buf) (replies-none n i buf)
  replies-all (a ∷ bs) zero i buf s h k = absurd (omega (arith, k))
  replies-all (a ∷ bs) (suc n) i buf s (r, h, hs) k = rw h (
      replies-all bs n (suc i) (buf ++ show i a) r hs (omega (arith, k))
      ∙ ap (λ t. done t []) (append_assoc buf (show i a) (shown show (suc i) bs)))
