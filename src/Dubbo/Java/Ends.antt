-- ===== src/Dubbo/Java/Ends.antt =====
-- The position of the deserializer of dubboport/java_deserializer.go never goes back and stays in
-- the bytes, whatever is read, and class descriptors come to an end.
use tcp_port.Base.{Option, [], arith, length, none, refl, suc, zero, ℕ, ◌++◌, ◌∷◌, ◌≤◌}
use tcp_port.Base.Slice.{Bytes, be16}
use tcp_port.Dubbo.Java.Class.{
  class_desc_round, class_of, class_reference, new_class, read_class_desc, read_class_descs,
  read_field_info, read_field_infos, read_new_class, set_class,
}
use tcp_port.Dubbo.Java.Moves.{
  Runs-lookup_handle, Runs-read_object_string, Runs-read_utf, Runs-skip,
  Runs-skip_object_annotation, Runs-wrong_tag,
}
use tcp_port.Dubbo.Java.Runs.{
  Runs, Runs-advance, Runs-all, Runs-if, Runs-less, Runs-peek, Runs-peek_end, Runs-pure,
  Runs-read_bytes, Runs-seq, Runs-still, Runs-then, Runs-wrap,
}
use tcp_port.Dubbo.Java.State.{
  ClassInfo, Step, Value, array, boolean, char, class_desc, double, float, integer, modify_at, null,
  object, text,
}
use tcp_port.Dubbo.Java.Runs.{Runs-seq_bind}
use tcp_port.Base.Slice.{at}
use tcp_port.Dubbo.Java.Class.{read_class_annotation, read_class_body, read_class_end}
use tcp_port.Dubbo.Java.Runs.{Runs-throw}

module _ {X : Type 0} {bytes : Bytes} where
  Runs-class_of : {k : ℕ} (h : ℕ) (v : Value) → Runs X bytes 0 0 k (class_of h v)
  unfolding class_of
  Runs-class_of h (class_desc a) = Runs-pure
  Runs-class_of h null = Runs-throw _
  Runs-class_of h (integer i) = Runs-throw _
  Runs-class_of h (char i) = Runs-throw _
  Runs-class_of h (double i) = Runs-throw _
  Runs-class_of h (float i) = Runs-throw _
  Runs-class_of h (boolean b) = Runs-throw _
  Runs-class_of h (object o) = Runs-throw _
  Runs-class_of h (array a) = Runs-throw _
  Runs-class_of h (text s) = Runs-throw _

  Runs-class_reference : {k : ℕ} → Runs X bytes 1 1 k (class_reference bytes)
  unfolding class_reference
  Runs-class_reference =
      Runs-seq Runs-advance (
        Runs-then (Runs-skip 4 _)
          (λ w. Runs-then (Runs-lookup_handle _ _) (λ v. Runs-class_of _ v)))

  Runs-read_field_info : {k : ℕ} (i : ℕ) → Runs X bytes 0 1 k (read_field_info bytes i)
  unfolding read_field_info
  Runs-read_field_info i = Runs-then (Runs-read_bytes 1 _) (λ c.
      Runs-then (Runs-less (Runs-wrap _ Runs-read_utf) (omega arith) (omega arith)) (λ n.
        Runs-then
          (Runs-if _ (Runs-less (Runs-wrap _ Runs-read_object_string) (omega arith) (omega arith))
            Runs-pure)
          (λ cn. Runs-pure)))

  Runs-read_field_infos : {k : ℕ} (i n : ℕ) → Runs X bytes 0 0 k (read_field_infos bytes i n)
  unfolding read_field_infos
  Runs-read_field_infos i zero = Runs-pure
  Runs-read_field_infos i (suc n) =
      Runs-then (Runs-less (Runs-read_field_info i) (omega arith) (omega arith))
        (λ f. Runs-then (Runs-read_field_infos (suc i) n) (λ fs. Runs-pure))

  Runs-new_class : {k : ℕ} (n : Bytes) → Runs X bytes 0 0 k (new_class n)
  unfolding new_class
  Runs-new_class n =
      Runs-still (λ s. length s.classes)
        (λ s. record s {
          handles = s.handles ++ (class_desc (length s.classes) ∷ []);
          classes =
              s.classes ++ (record { class_name = n; flags = 0; fields = []; super = none } ∷ []);
        })
        (λ s. refl)

  Runs-set_class : {k : ℕ} (a : ℕ) (f : ClassInfo → ClassInfo) → Runs X bytes 0 0 k (set_class a f)
  unfolding set_class
  Runs-set_class a f =
      Runs-still (λ _. tt) (λ s. record s { classes = modify_at a f s.classes }) (λ s. refl)

  Runs-read_class_annotation : {k : ℕ} (w : ℕ) → Runs X bytes 0 0 k (read_class_annotation bytes w)
  unfolding read_class_annotation
  Runs-read_class_annotation w =
      Runs-if _ (Runs-less (Runs-wrap _ Runs-skip_object_annotation) (omega arith) (omega arith))
        Runs-pure

  Runs-read_class_end :
      {k : ℕ} {read_super : Step (Option ℕ)} (a w : ℕ)
      → Runs X bytes 0 0 k read_super
      → Runs X bytes 0 0 k (read_class_end bytes read_super a w)
  unfolding read_class_end
  Runs-read_class_end a w h =
      Runs-seq (Runs-read_class_annotation w)
        (Runs-then (Runs-wrap _ h) (λ p. Runs-seq (Runs-set_class a _) Runs-pure))

  Runs-read_class_body :
      {k : ℕ} {read_super : Step (Option ℕ)} (a : ℕ)
      → Runs X bytes 0 0 k read_super
      → Runs X bytes 0 0 k (read_class_body bytes read_super a)
  unfolding read_class_body
  Runs-read_class_body a h = Runs-then (Runs-skip 1 _) (λ w. Runs-seq (Runs-set_class a _) (
      Runs-then (Runs-skip 2 _) (λ c.
        Runs-then (Runs-read_field_infos 0 (be16 c 0))
          (λ fs. Runs-seq (Runs-set_class a _) (Runs-read_class_end a (at w 0) h)))))

  Runs-read_new_class :
      {k k' : ℕ} {read_super : Step (Option ℕ)}
      → Runs X bytes 0 0 k' read_super
      → k ≤ suc k'
      → Runs X bytes 1 1 k (read_new_class bytes read_super)
  unfolding read_new_class
  Runs-read_new_class h le =
      Runs-seq_bind Runs-advance
        (Runs-then (Runs-less (Runs-wrap _ Runs-read_utf) (omega arith) (omega arith)) (λ n.
          Runs-then (Runs-skip 8 _)
            (λ _. Runs-then (Runs-new_class n) (λ a. Runs-read_class_body a h))))
        (omega (arith, le))

  Runs-class_desc_round :
      {k k' : ℕ} {read_super : Step (Option ℕ)}
      → Runs X bytes 0 0 k' read_super
      → k ≤ suc k'
      → Runs X bytes 0 1 k (class_desc_round bytes read_super)
  unfolding class_desc_round
  Runs-class_desc_round h le = Runs-peek _ (λ tc.
      Runs-if _ (Runs-seq Runs-advance Runs-pure) (
        Runs-if _ Runs-class_reference (Runs-if _ (Runs-read_new_class h le) (Runs-wrong_tag _ _))))

  Runs-read_class_descs : (n : ℕ) → Runs X bytes 0 1 n (read_class_descs bytes (suc n))
  unfolding read_class_descs class_desc_round
  Runs-read_class_descs zero = Runs-peek_end _ _
  Runs-read_class_descs (suc n) =
      Runs-class_desc_round (Runs-less (Runs-read_class_descs n) (omega arith) (omega arith))
        (omega arith)

  pub Runs-read_class_desc : {k : ℕ} → Runs X bytes 0 1 k (read_class_desc bytes)
  unfolding read_class_desc
  Runs-read_class_desc = Runs-all (Runs-read_class_descs (length bytes))
