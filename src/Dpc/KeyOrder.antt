-- ===== src/Dpc/KeyOrder.antt =====
-- What BuildKey of pkg/sc/key.go promises: keys are ordered as the records are, component by
-- component, each in its direction.
use Prim.Native.String.{String}
use text.Mathlib.Text.{◌==◌ as str_eq}
use capillaries.Prelude.{
  ◌≡◌, refl, sym, ap, ◌∙◌, Bool, true, false, not, ◌&&◌, Option, some, List, [], ◌∷◌, ◌++◌, All,
  length, inl, inr, arith, Bool-cases, Option-cases, if◌then◌else◌,
}
use mathlib.Core.Path.{subst}
use capillaries.Prelude.Int.{ℤ, int_lt, eq_of_parts}
use capillaries.Prelude.Text.{Text, text_lt, text_lt_asymm}
use capillaries.Dpc.Expr.{EvalValue, int64_val, bool_val, Attributes}
use capillaries.Dpc.Key.{
  SortOrder, sort_asc, sort_desc, KeyFieldType, int_field, bool_field, IdxComponentDef, bool_key,
  component_key, descending_key, ordered_key, field_value, build_key, int_key,
}
use capillaries.Dpc.Digits.{
  IsByte, text_lt-append, text_lt-same, length-descending_key, descending_key_anti,
}
use capillaries.Dpc.IntKeys.{IsInt64, length-int_key, int_key-bytes, int_key_mono}

-- Integers by their order, false before true.
unfoldable pub value_before : EvalValue → EvalValue → Bool
value_before (int64_val a) (int64_val b) = int_lt a b
value_before (bool_val a) (bool_val b) = not a && b
value_before _ _ = false

abbrev directed : SortOrder → EvalValue → EvalValue → Bool
directed sort_asc v w = value_before v w
directed sort_desc v w = value_before w v

abbrev pub option_before : SortOrder → Option EvalValue → Option EvalValue → Bool
option_before o (some v) (some w) = directed o v w
option_before o _ _ = false

-- The first component in which two records differ decides.
unfoldable pub record_before : Attributes → Attributes → List IdxComponentDef → Bool
unfolding value_before field_value
record_before f g [] = false
record_before f g (c ∷ comps) =
    let v = field_value c.field_name f in
    let w = field_value c.field_name g in
    let rest = record_before f g comps in
    if option_before c.sort_order v w
    then true
    else if option_before c.sort_order w v
    then false
    else rest

abbrev pub IsMachine : EvalValue → Type 0
IsMachine (int64_val n) = IsInt64 n
IsMachine (bool_val b) = Unit

-- Values of one type, with their texts: one length, bytes, and the order of the values.
record Keyed (v w : EvalValue) (s t : Text) : Type 0 where
  same_length : length s ≡ length t
  left_bytes : All IsByte s
  right_bytes : All IsByte t
  forth : value_before v w ≡ true → text_lt s t ≡ true
  back : value_before w v ≡ true → text_lt t s ≡ true
  same : value_before v w ≡ false → value_before w v ≡ false → s ≡ t

int-Keyed :
    (a b : ℤ) → IsInt64 a → IsInt64 b → Keyed (int64_val a) (int64_val b) (int_key a) (int_key b)
unfolding value_before
int-Keyed a b ha hb = record {
  same_length = omega (arith, length-int_key a ha, length-int_key b hb);
  left_bytes = int_key-bytes a ha;
  right_bytes = int_key-bytes b hb;
  forth = λ h. int_key_mono a b ha hb (ground arith);
  back = λ h. int_key_mono b a hb ha (ground arith);
  same = λ h k. ap int_key (eq_of_parts a b (ground arith));
}

bool_key-bytes : (b : Bool) → All IsByte (bool_key b)
unfolding bool_key
bool_key-bytes true = (omega arith, tt)
bool_key-bytes false = (omega arith, tt)

bool-Keyed : (a b : Bool) → Keyed (bool_val a) (bool_val b) (bool_key a) (bool_key b)
unfolding value_before bool_key text_lt
bool-Keyed a b = record {
  same_length = ground arith;
  left_bytes = bool_key-bytes a;
  right_bytes = bool_key-bytes b;
  forth = λ h. ground arith;
  back = λ h. ground arith;
  same = λ h k. ground arith;
}

moved : {v w : EvalValue} (s t s' t' : Text) → s ≡ s' → t ≡ t' → Keyed v w s t → Keyed v w s' t'
moved {v} {w} s t s' t' p q k = subst (λ r. Keyed v w r t') p (subst (λ r. Keyed v w s r) q k)

component-Keyed :
    (t : KeyFieldType) (v w : EvalValue) (s u : Text)
    → IsMachine v
    → IsMachine w
    → component_key t v ≡ some s
    → component_key t w ≡ some u
    → Keyed v w s u
unfolding component_key
component-Keyed int_field (int64_val a) (int64_val b) s u hv hw p q =
    moved (int_key a) (int_key b) s u (ground arith) (ground arith) (int-Keyed a b hv hw)
component-Keyed bool_field (bool_val a) (bool_val b) s u hv hw p q =
    moved (bool_key a) (bool_key b) s u (ground arith) (ground arith) (bool-Keyed a b)
component-Keyed int_field (bool_val a) w s u hv hw p q = absurd (ground arith)
component-Keyed bool_field (int64_val a) w s u hv hw p q = absurd (ground arith)
component-Keyed int_field (int64_val a) (bool_val b) s u hv hw p q = absurd (ground arith)
component-Keyed bool_field (bool_val a) (int64_val b) s u hv hw p q = absurd (ground arith)

fixed_order :
    (before after : Bool) (s t x y : Text)
    → length s ≡ length t
    → (before ≡ true → text_lt s t ≡ true)
    → (after ≡ true → text_lt t s ≡ true)
    → (before ≡ false → after ≡ false → s ≡ t)
    → text_lt (s ++ x) (t ++ y) ≡ (if before then true else if after then false else text_lt x y)
fixed_order true after s t x y l f g e = text_lt-append s t x y l (f refl)
fixed_order false true s t x y l f g e =
    text_lt_asymm (t ++ y) (s ++ x) (text_lt-append t s y x (sym l) (g refl))
fixed_order false false s t x y l f g e = cc (e refl refl, text_lt-same t x y)

-- The texts in their direction, in front of what follows them.
directed_order :
    (o : SortOrder) (v w : EvalValue) (s u x y : Text)
    → Keyed v w s u
    → text_lt (ordered_key o s ++ x) (ordered_key o u ++ y)
      ≡ (if directed o v w then true else if directed o w v then false else text_lt x y)
directed_order sort_asc v w s u x y k =
    fixed_order (value_before v w) (value_before w v) s u x y k.same_length k.forth k.back k.same
directed_order sort_desc v w s u x y k =
    fixed_order (value_before w v) (value_before v w) (descending_key s) (descending_key u) x y
      (omega (arith, length-descending_key s, length-descending_key u, k.same_length))
      (λ h. descending_key_anti u s (sym k.same_length) k.right_bytes k.left_bytes (k.back h))
      (λ h. descending_key_anti s u k.same_length k.left_bytes k.right_bytes (k.forth h))
      (λ h e. ap descending_key (k.same e h))

field_value-IsMachine :
    (name : String) (f : Attributes) (v : EvalValue)
    → All (λ a. IsMachine a.1) f
    → field_value name f ≡ some v
    → IsMachine v
unfolding field_value
field_value-IsMachine name [] v h e = absurd (ground arith)
field_value-IsMachine name ((k, w) ∷ l) v h e = elim (Bool-cases (str_eq k name)) [
  | inl q ↦ subst IsMachine (ground arith) h.0
  | inr q ↦ field_value-IsMachine name l v h.1 (ground arith)
]

build_key-nil : (f : Attributes) (k : Text) → build_key f [] ≡ some k → k ≡ []
unfolding build_key
build_key-nil f k h = ground arith

nothing_before : text_lt [] [] ≡ false
unfolding text_lt
nothing_before = refl

-- What a key that was built consists of.
build_key-cons :
    (f : Attributes) (c : IdxComponentDef) (comps : List IdxComponentDef) (k : Text)
    → build_key f (c ∷ comps) ≡ some k
    → (v : EvalValue) × (s : Text) × (rest : Text) × (field_value c.field_name f ≡ some v)
      × (component_key c.field_type v ≡ some s)
      × (build_key f comps ≡ some rest)
      × (k ≡ ordered_key c.sort_order s ++ rest)
unfolding build_key
build_key-cons f c comps k h = elim (Option-cases (field_value c.field_name f)) [
  | inl a ↦ absurd (ground arith)
  | inr (v, a) ↦ elim (Option-cases (component_key c.field_type v)) [
    | inl b ↦ absurd (ground arith)
    | inr (s, b) ↦ elim (Option-cases (build_key f comps)) [
      | inl d ↦ absurd (ground arith)
      | inr (rest, d) ↦ (v, s, rest, a, b, d, ground arith)
    ]
  ]
]

abbrev decided : SortOrder → Option EvalValue → Option EvalValue → Bool → Bool
decided o v w rest =
    if option_before o v w then true else if option_before o w v then false else rest

-- The keys that BuildKey builds for two records of int64 and bool values are in the order of the
-- records: the first component in which they differ decides, in the direction of that component.
pub build_key-order :
    (comps : List IdxComponentDef) (f g : Attributes) (k l : Text)
    → All (λ a. IsMachine a.1) f
    → All (λ a. IsMachine a.1) g
    → build_key f comps ≡ some k
    → build_key g comps ≡ some l
    → text_lt k l ≡ record_before f g comps
unfolding record_before
build_key-order [] f g k l hf hg p q = cc (build_key-nil f k p, build_key-nil g l q, nothing_before)
build_key-order (c ∷ comps) f g k l hf hg p q =
    let a = build_key-cons f c comps k p in
    let b = build_key-cons g c comps l q in
    let v-IsMachine = field_value-IsMachine c.field_name f a.0 hf a.3 in
    let w-IsMachine = field_value-IsMachine c.field_name g b.0 hg b.3 in
    let keyed = component-Keyed c.field_type a.0 b.0 a.1 b.1 v-IsMachine w-IsMachine a.4 b.4 in
    let rest = build_key-order comps f g a.2 b.2 hf hg a.5 b.5 in
    let first : text_lt k l ≡ decided c.sort_order (some a.0) (some b.0) (text_lt a.2 b.2) =
      cc (a.6, b.6, directed_order c.sort_order a.0 b.0 a.1 b.1 a.2 b.2 keyed) in
    let whole : decided c.sort_order (some a.0) (some b.0) (text_lt a.2 b.2)
        ≡ decided c.sort_order (field_value c.field_name f) (field_value c.field_name g)
            (record_before f g comps) =
      cc (a.3, b.3, rest) in
    first ∙ whole
