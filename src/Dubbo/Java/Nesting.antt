-- ===== src/Dubbo/Java/Nesting.antt =====
-- The position of the deserializer of dubboport/java_deserializer.go never goes back and stays in
-- the bytes, however values are nested.
use tcp_port.Base.{List, Option, [], arith, length, none, refl, some, suc, zero, ℕ, ◌++◌, ◌∷◌}
use tcp_port.Base.Slice.{Bytes}
use tcp_port.Dubbo.Java.Blocks.{read_field_value, read_primitive, read_raw_primitive}
use tcp_port.Dubbo.Java.Content.{
  annotation_of, class_at, class_data_round, new_object, read_class_data, read_fields, read_object,
  set_array, set_field, set_new,
}
use tcp_port.Dubbo.Java.Ends.{Runs-read_class_desc}
use tcp_port.Dubbo.Java.Moves.{Runs-new_handle, Runs-skip, Runs-skip_object_annotation}
use tcp_port.Dubbo.Java.Runs.{
  Runs, Runs-expect, Runs-get_state, Runs-if, Runs-less, Runs-out, Runs-pure, Runs-seq, Runs-still,
  Runs-then, Runs-wrap,
}
use tcp_port.Dubbo.Java.State.{ClassInfo, FieldInfo, Fields, Step, Value, array, modify_at}
use tcp_port.Base.Slice.{be32}
use tcp_port.Dubbo.Java.Blocks.{read_word}
use tcp_port.Dubbo.Java.Content.{
  as_text, class_or, content_round, read_array, read_class, read_content, read_elements, read_enum,
  refuse_tag,
}
use tcp_port.Dubbo.Java.Moves.{
  Runs-inside, Runs-read_java_string, Runs-read_long_string, Runs-read_object_string,
  Runs-read_reference, Runs-skip_block_data,
}
use tcp_port.Dubbo.Java.Runs.{Runs-advance, Runs-peek}
use tcp_port.Dubbo.Java.State.{null, text}
use tcp_port.Dubbo.Java.Runs.{Runs-throw}
use tcp_port.Base.{◌==◌}

module _ {X : Type 0} {bytes : Bytes} where
  Runs-set_field :
      {k : ℕ} (o : ℕ) (key : Bytes) (v : Value) → Runs X bytes 0 0 k (set_field o key v)
  unfolding set_field
  Runs-set_field o key v =
      Runs-still (λ _. tt) (λ s. record s { objects = modify_at o (set_new key v) s.objects })
        (λ s. refl)

  pub Runs-new_object : {k : ℕ} (fs : Fields) → Runs X bytes 0 0 k (new_object fs)
  unfolding new_object
  Runs-new_object fs =
      Runs-still (λ s. length s.objects) (λ s. record s { objects = s.objects ++ (fs ∷ []) })
        (λ s. refl)

  Runs-set_array : {k : ℕ} (h : ℕ) (vs : List Value) → Runs X bytes 0 0 k (set_array h vs)
  unfolding set_array
  Runs-set_array h vs =
      Runs-still (λ s. array (length s.arrays))
        (λ s. record s {
          handles = modify_at h (λ _. array (length s.arrays)) s.handles;
          arrays = s.arrays ++ (vs ∷ []);
        })
        (λ s. refl)

  Runs-read_word :
      {k : ℕ} (raw : Bytes) (n : ℕ) (name : Bytes) (f : Bytes → Value)
      → Runs X bytes 0 0 k (read_word bytes raw n name f)
  unfolding read_word
  Runs-read_word raw n name f = Runs-then (Runs-skip n _) (λ w. Runs-pure)

  Runs-read_primitive :
      {k : ℕ} {other : Step Value} (raw : Bytes) (c : ℕ)
      → Runs X bytes 0 0 k other
      → Runs X bytes 0 0 k (read_primitive bytes raw other c)
  unfolding read_primitive
  Runs-read_primitive raw c h = Runs-if (c == b'B') (search Runs-read_word) (
      Runs-if (c == b'C') (search Runs-read_word) (
        Runs-if (c == b'D') (search Runs-read_word) (
          Runs-if (c == b'F') (search Runs-read_word) (
            Runs-if (c == b'I') (search Runs-read_word) (
              Runs-if (c == b'J') (search Runs-read_word) (
                Runs-if (c == b'S') (search Runs-read_word)
                  (Runs-if (c == b'Z') (search Runs-read_word) h)))))))

  pub Runs-read_field_value :
      {k : ℕ} {content : Step Value} (c : ℕ)
      → Runs X bytes 0 0 k content
      → Runs X bytes 0 0 k (read_field_value bytes content c)
  unfolding read_field_value
  Runs-read_field_value c h = Runs-read_primitive [] c (Runs-if _ h (Runs-throw _))

  Runs-read_raw_primitive : {k : ℕ} (c : ℕ) → Runs X bytes 0 0 k (read_raw_primitive bytes c)
  unfolding read_raw_primitive
  Runs-read_raw_primitive c = Runs-read_primitive _ c (Runs-throw _)

  module _ {content : Step Value} (runs : (k : ℕ) → Runs X bytes 0 0 k content) (x : X) where
    Runs-read_fields :
        {k : ℕ} (o : ℕ) (fs : List FieldInfo) → Runs X bytes 0 0 k (read_fields bytes content o fs)
    unfolding read_fields
    Runs-read_fields o [] = Runs-pure
    Runs-read_fields o (f ∷ fs) =
        Runs-then (Runs-wrap _ (Runs-read_field_value f.type_code (runs _)))
          (λ v. Runs-seq (Runs-set_field o f.name v) (Runs-read_fields o fs))

    Runs-annotation_of : {k : ℕ} (c : ClassInfo) → Runs X bytes 0 0 k (annotation_of bytes c)
    unfolding annotation_of
    Runs-annotation_of c =
        Runs-if _ (Runs-less Runs-skip_object_annotation (omega arith) (omega arith)) Runs-pure

    Runs-read_class_data :
        {k : ℕ} (o n : ℕ) (p : Option ℕ) → Runs X bytes 0 0 k (read_class_data bytes content o n p)
    unfolding read_class_data class_data_round
    Runs-read_class_data o n none = Runs-pure
    Runs-read_class_data o zero (some a) = Runs-out x
    Runs-read_class_data o (suc n) (some a) = Runs-get_state (λ d.
        Runs-if _
          (Runs-seq (Runs-less Runs-skip_object_annotation (omega arith) (omega arith))
            (Runs-read_class_data o n (class_at d.classes a).super))
          (Runs-seq (Runs-read_fields o (class_at d.classes a).fields) (
            Runs-seq (Runs-annotation_of (class_at d.classes a))
              (Runs-read_class_data o n (class_at d.classes a).super))))

    pub Runs-read_object : {k : ℕ} (n : ℕ) → Runs X bytes 0 1 k (read_object bytes content n)
    unfolding read_object
    Runs-read_object n = Runs-seq (Runs-expect _ _) (
        Runs-then (Runs-less (Runs-wrap _ Runs-read_class_desc) (omega arith) (omega arith))
          (λ desc. Runs-then (Runs-new_object []) (λ o.
            Runs-seq (Runs-new_handle _)
              (Runs-seq (Runs-wrap _ (Runs-read_class_data o n desc)) Runs-pure))))

    Runs-read_elements :
        {k : ℕ} (t i n : ℕ) → Runs X bytes 0 0 k (read_elements bytes content t i n)
    unfolding read_elements
    Runs-read_elements t i zero = Runs-pure
    Runs-read_elements t i (suc n) =
        Runs-then (Runs-wrap _ (Runs-if _ (Runs-read_raw_primitive t) (runs _)))
          (λ v. Runs-then (Runs-read_elements t (suc i) n) (λ vs. Runs-pure))

    Runs-class_or : {k : ℕ} (t : Bytes) (p : Option ℕ) → Runs X bytes 0 0 k (class_or t p)
    unfolding class_or
    Runs-class_or t none = Runs-throw _
    Runs-class_or t (some a) = Runs-pure

    Runs-read_array : {k : ℕ} → Runs X bytes 0 1 k (read_array bytes content)
    unfolding read_array
    Runs-read_array = Runs-seq (Runs-expect _ _) (
        Runs-then (Runs-less (Runs-wrap _ Runs-read_class_desc) (omega arith) (omega arith)) (λ p.
          Runs-then (Runs-class_or _ p) (λ a. Runs-then (Runs-skip 4 _) (λ w. Runs-get_state (λ d.
            Runs-seq (Runs-new_handle null)
              (Runs-then (Runs-read_elements _ 0 (be32 w 0)) (λ vs. Runs-set_array _ vs)))))))

  Runs-read_enum : {k : ℕ} → Runs X bytes 0 1 k (read_enum bytes)
  unfolding read_enum
  Runs-read_enum = Runs-seq (Runs-expect _ _) (
      Runs-then (Runs-less (Runs-wrap _ Runs-read_class_desc) (omega arith) (omega arith)) (λ p.
        Runs-then (Runs-less (Runs-wrap _ Runs-read_object_string) (omega arith) (omega arith))
          (λ s. Runs-seq (Runs-new_handle (text s)) Runs-pure)))

  Runs-read_class : {k : ℕ} → Runs X bytes 0 1 k (read_class bytes)
  unfolding read_class
  Runs-read_class = Runs-seq (Runs-expect _ _) (
      Runs-then (Runs-less (Runs-wrap _ Runs-read_class_desc) (omega arith) (omega arith)) (λ desc.
        Runs-get_state
          (λ d. Runs-seq (Runs-new_handle _) (Runs-then (Runs-new_object _) (λ o. Runs-pure)))))

  Runs-as_text : {k : ℕ} {m : Step Bytes} → Runs X bytes 0 1 k m → Runs X bytes 0 1 k (as_text m)
  unfolding as_text
  Runs-as_text h = Runs-then h (λ s. Runs-pure)

  Runs-refuse_tag : {k : ℕ} (tc i : ℕ) → Runs X bytes 1 1 k (refuse_tag tc i)
  unfolding refuse_tag
  Runs-refuse_tag tc i = search (Runs-if, Runs-throw)

  Runs-content_round :
      {k : ℕ} {content : Step Value} (n : ℕ)
      → ((k : ℕ) → Runs X bytes 0 0 k content)
      → X
      → Runs X bytes 0 1 k (content_round bytes content n)
  unfolding content_round
  Runs-content_round n runs x = Runs-get_state (λ d. Runs-peek _ (λ tc.
      Runs-if _ (Runs-seq Runs-advance Runs-pure) (
        Runs-if _ (Runs-inside Runs-read_reference) (
          Runs-if _ (Runs-inside (Runs-read_object runs x n)) (
            Runs-if _ (Runs-inside (Runs-as_text Runs-read_java_string)) (
              Runs-if _ (Runs-inside (Runs-as_text Runs-read_long_string)) (
                Runs-if _ (Runs-inside (Runs-read_array runs x)) (
                  Runs-if _ (Runs-inside Runs-read_enum) (
                    Runs-if _ (Runs-inside Runs-read_class) (
                      Runs-if _ (Runs-inside Runs-skip_block_data)
                        (Runs-refuse_tag tc d.pos)))))))))))

  pub Runs-read_content : {k : ℕ} (n : ℕ) → X → Runs X bytes 0 1 k (read_content bytes n)
  unfolding read_content
  Runs-read_content zero x = Runs-out x
  Runs-read_content (suc n) x =
      Runs-content_round n (λ k. Runs-less (Runs-read_content n x) (omega arith) (omega arith)) x
