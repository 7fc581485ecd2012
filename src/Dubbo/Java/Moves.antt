-- ===== src/Dubbo/Java/Moves.antt =====
-- Where the methods of dubboport/java_deserializer.go that do not nest leave the position, and the
-- end of the loop of `skipObjectAnnotation`.
use tcp_port.Dubbo.Java.State.{◌>>=◌, ◌>>◌}
use tcp_port.Base.{[], arith, refl, suc, zero, ℕ, ◌++◌, ◌∷◌}
use tcp_port.Base.Slice.{Bytes, at, be16, be32, be64}
use tcp_port.Dubbo.Java.Blocks.{
  annotation_round, skip_annotation, skip_block_data, skip_block_data_long,
}
use tcp_port.Dubbo.Java.Runs.{
  Ends, Runs, Runs-advance, Runs-expect, Runs-get_state, Runs-if, Runs-peek, Runs-pure,
  Runs-read_bytes, Runs-refuse, Runs-still, Runs-then, Runs-less,
}
use tcp_port.Dubbo.Java.State.{
  Step, Value, array, boolean, char, class_desc, double, float, integer, new_handle, null, object,
  pure, read_bytes, text,
}
use tcp_port.Dubbo.Java.Strings.{
  lookup_handle, read_java_string, read_long, read_long_string, read_object_string, read_reference,
  read_utf, text_of,
}
use tcp_port.Base.Outcome.{errorf}
use tcp_port.Base.Text.{codes, dec, hex_byte}
use tcp_port.Dubbo.Java.Runs.{Runs-seq}
use tcp_port.Dubbo.Java.Strings.{wrong_tag}
use tcp_port.Base.{◌≤◌}
use tcp_port.Dubbo.Java.Blocks.{skip_object_annotation}
use tcp_port.Dubbo.Java.Runs.{Runs-bind}
use tcp_port.Base.{length}
use tcp_port.Dubbo.Java.Runs.{Runs-all, Runs-peek_end}
use tcp_port.Dubbo.Java.Runs.{Runs-throw}
use tcp_port.Dubbo.Java.State.{throw}

module _ {X : Type 0} {bytes : Bytes} where
  pub Runs-new_handle : {k : ℕ} (v : Value) → Runs X bytes 0 0 k (new_handle v)
  Runs-new_handle v =
      Runs-still (λ _. tt) (λ s. record s { handles = s.handles ++ (v ∷ []) }) (λ s. refl)

  pub Runs-read_utf : {k : ℕ} → Runs X bytes 0 1 k (read_utf bytes)
  unfolding read_utf
  Runs-read_utf =
      Runs-less
        (Runs-then (Runs-read_bytes 2 _) (λ w.
          Runs-if _ Runs-pure
            (Runs-less (Runs-read_bytes (be16 w 0) _) (omega arith) (omega arith))))
        (omega arith) (omega arith)

  pub Runs-skip : {k : ℕ} (n : ℕ) (t : Bytes) → Runs X bytes 0 0 k (read_bytes bytes n t)
  Runs-skip n t = Runs-less (Runs-read_bytes n t) (omega arith) (omega arith)

  -- A handle for a text that was read.
  Runs-keep :
      {k : ℕ} {m : Step Bytes}
      → Runs X bytes 0 0 k m
      → Runs X bytes 0 0 k (m >>= λ s. new_handle (text s) >> pure s)
  Runs-keep h = Runs-then h (λ s. Runs-seq (Runs-new_handle (text s)) Runs-pure)

  pub Runs-read_java_string : {k : ℕ} → Runs X bytes 0 1 k (read_java_string bytes)
  unfolding read_java_string
  Runs-read_java_string = Runs-then (Runs-expect _ _) (λ _.
      Runs-then (Runs-skip 2 _) (λ w. Runs-get_state (λ d. Runs-keep (Runs-skip (be16 w 0) _))))

  Runs-read_long : {k : ℕ} (n : ℕ) → Runs X bytes 0 0 k (read_long bytes n)
  unfolding read_long read_bytes Ends
  Runs-read_long n = record { run = λ s p q. ground arith }

  pub Runs-read_long_string : {k : ℕ} → Runs X bytes 0 1 k (read_long_string bytes)
  unfolding read_long_string
  Runs-read_long_string =
      Runs-then (Runs-expect _ _)
        (λ _. Runs-then (Runs-skip 8 _) (λ w. Runs-keep (Runs-read_long (be64 w 0))))

  pub Runs-lookup_handle : {k : ℕ} (t : Bytes) (h : ℕ) → Runs X bytes 0 0 k (lookup_handle t h)
  unfolding lookup_handle Ends
  Runs-lookup_handle t h = record { run = λ s p q. ground arith }

  pub Runs-read_reference : {k : ℕ} → Runs X bytes 0 1 k (read_reference bytes)
  unfolding read_reference
  Runs-read_reference =
      Runs-then (Runs-expect _ _) (λ _. Runs-then (Runs-skip 4 _) (λ w. Runs-lookup_handle _ _))

  Runs-text_of : {k : ℕ} (h : ℕ) (v : Value) → Runs X bytes 0 0 k (text_of h v)
  unfolding text_of
  Runs-text_of h (text s) = Runs-pure
  Runs-text_of h null = Runs-throw _
  Runs-text_of h (integer i) = Runs-throw _
  Runs-text_of h (char i) = Runs-throw _
  Runs-text_of h (double i) = Runs-throw _
  Runs-text_of h (float i) = Runs-throw _
  Runs-text_of h (boolean b) = Runs-throw _
  Runs-text_of h (object o) = Runs-throw _
  Runs-text_of h (array a) = Runs-throw _
  Runs-text_of h (class_desc c) = Runs-throw _

  -- A method that checks the tag again.
  pub Runs-inside : {A : Type 0} {k : ℕ} {m : Step A} → Runs X bytes 0 1 k m → Runs X bytes 1 1 k m
  Runs-inside h = Runs-less h (omega arith) (omega arith)

  pub Runs-wrong_tag :
      {A : Type 0} {pre eat k : ℕ} (t : Bytes) (tc : ℕ)
      → Runs X bytes {A = A} pre eat k (wrong_tag t tc)
  unfolding wrong_tag throw
  Runs-wrong_tag t tc =
      Runs-refuse (λ d. errorf (t ++ (hex_byte tc ++ (codes " at pos " ++ dec d.pos))))

  pub Runs-read_object_string : {k : ℕ} → Runs X bytes 0 1 k (read_object_string bytes)
  unfolding read_object_string
  Runs-read_object_string = Runs-peek _ (λ tc. Runs-if _ (Runs-inside Runs-read_java_string) (
      Runs-if _ (Runs-inside Runs-read_long_string) (
        Runs-if _
          (Runs-seq Runs-advance (
            Runs-then (Runs-skip 4 _)
              (λ w. Runs-then (Runs-lookup_handle _ _) (λ v. Runs-text_of _ v))))
          (Runs-wrong_tag _ _))))

  pub Runs-skip_block_data_long : {k : ℕ} → Runs X bytes 0 1 k (skip_block_data_long bytes)
  unfolding skip_block_data_long
  Runs-skip_block_data_long =
      Runs-then (Runs-expect _ _)
        (λ _. Runs-then (Runs-skip 4 _) (λ w. Runs-then (Runs-skip (be32 w 0) _) (λ _. Runs-pure)))

  pub Runs-skip_block_data : {k : ℕ} → Runs X bytes 0 1 k (skip_block_data bytes)
  unfolding skip_block_data
  Runs-skip_block_data = Runs-peek _ (λ tc.
      Runs-if _
        (Runs-seq Runs-advance
          (Runs-then (Runs-skip 1 _) (λ w. Runs-then (Runs-skip (at w 0) _) (λ _. Runs-pure))))
        (Runs-if _ (Runs-inside Runs-skip_block_data_long)
          (Runs-if _ (Runs-seq Runs-advance Runs-pure) (Runs-wrong_tag _ _))))

  pub Runs-annotation_round :
      {k k' : ℕ} {next : Step (Unit {0})}
      → Runs X bytes 0 0 k' next
      → k ≤ suc k'
      → Runs X bytes 0 1 k (annotation_round bytes next)
  unfolding annotation_round
  Runs-annotation_round h le = Runs-peek _ (λ tc. Runs-if _ Runs-advance (
      Runs-if _ (Runs-inside (Runs-bind Runs-skip_block_data (λ _. h) (omega (arith, le)))) (
        Runs-if _ (Runs-inside (Runs-bind Runs-skip_block_data_long (λ _. h) (omega (arith, le))))
          (Runs-get_state (λ d. Runs-throw _)))))

  -- With more rounds than bytes the loop comes to an end.
  Runs-skip_annotation : (n : ℕ) → Runs X bytes 0 1 n (skip_annotation bytes (suc n))
  unfolding skip_annotation annotation_round
  Runs-skip_annotation zero = Runs-peek_end _ _
  Runs-skip_annotation (suc n) =
      Runs-annotation_round (Runs-less (Runs-skip_annotation n) (omega arith) (omega arith))
        (omega arith)

  pub Runs-skip_object_annotation : {k : ℕ} → Runs X bytes 0 1 k (skip_object_annotation bytes)
  unfolding skip_object_annotation
  Runs-skip_object_annotation = Runs-all (Runs-skip_annotation (length bytes))
