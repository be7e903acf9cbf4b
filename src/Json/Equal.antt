-- ===== src/Json/Equal.antt =====
-- Python's `==` on the values of `json.loads`: an integer equals the Boolean of its value, and a
-- dictionary another with the same entries.
use tod_dl.Json.{
  Json, null, Items, nil, cons, Fields, end, field, boolean, int, float, str, arr, obj, is_text,
}
use tod_dl.Base.{
  String, Bool, or_parts, both_hold, true, false, ◌&&◌, ◌||◌, ◌≡◌, refl, arith, str_eq, eq_iff,
  ◌==◌, ℤ, pos, negsuc,
}

-- int(flag)
unfoldable pub of_bool : Bool → ℤ
of_bool true = pos 1
of_bool false = pos 0

unfoldable pub eq_ℤ : ℤ → ℤ → Bool
eq_ℤ (pos m) (pos n) = m == n
eq_ℤ (negsuc m) (negsuc n) = m == n
eq_ℤ (pos m) (negsuc n) = false
eq_ℤ (negsuc m) (pos n) = false

unfoldable pub is_null : Json → Bool
is_null null = true
is_null (boolean b) = false
is_null _ = false

-- The comparison of a float with another value is Python's own.
module _ (float_eq : String → Json → Bool) where
  unfoldable pub eq_number : ℤ → Json → Bool
  unfolding of_bool eq_ℤ
  eq_number n (boolean b) = eq_ℤ n (of_bool b)
  eq_number n (int m) = eq_ℤ n m
  eq_number n (float x) = float_eq x (int n)
  eq_number n null = false
  eq_number n _ = false

  unfoldable mutual
    unfolding is_null of_bool is_text

    pub eq_json : Json → Json → Bool
    eq_json null w = is_null w
    eq_json (boolean b) w = eq_number (of_bool b) w
    eq_json (int n) w = eq_number n w
    eq_json (float x) w = float_eq x w
    eq_json (str s) w = is_text s w
    eq_json (arr xs) w = elim w [ arr ys ↦ eq_items xs ys | _ ↦ false ]
    eq_json (obj fs) w = elim w [ obj gs ↦ eq_fields fs gs | _ ↦ false ]

    pub eq_items : Items → Items → Bool
    eq_items nil nil = true
    eq_items (cons x xs) (cons y ys) = eq_json x y && eq_items xs ys
    eq_items nil (cons y ys) = false
    eq_items (cons x xs) nil = false

    pub eq_fields : Fields → Fields → Bool
    eq_fields end end = true
    eq_fields (field j x fs) (field k y gs) = str_eq j k && eq_json x y && eq_fields fs gs
    eq_fields end (field k y gs) = false
    eq_fields (field j x fs) end = false

-- Whether a float stands in the value (`reject_float`).
unfoldable mutual
  pub has_float : Json → Bool
  has_float (float x) = true
  has_float (arr xs) = any_float xs
  has_float (obj fs) = any_float_in fs
  has_float null = false
  has_float _ = false

  pub any_float : Items → Bool
  any_float nil = false
  any_float (cons x xs) = has_float x || any_float xs

  pub any_float_in : Fields → Bool
  any_float_in end = false
  any_float_in (field name x fs) = has_float x || any_float_in fs

-- A value without floats equals itself.
module _ (float_eq : String → Json → Bool) where
  mutual
    unfolding eq_json has_float eq_number eq_ℤ of_bool is_null is_text

    eq_value_refl : (v : Json) → has_float v ≡ false → eq_json float_eq v v ≡ true
    eq_value_refl null h = refl
    eq_value_refl (boolean true) h = refl
    eq_value_refl (boolean false) h = refl
    eq_value_refl (int (pos n)) h = ground arith
    eq_value_refl (int (negsuc n)) h = ground arith
    eq_value_refl (float x) h = cc
    eq_value_refl (str s) h = ground (arith, eq_iff s s)
    eq_value_refl (arr xs) h = eq_items_refl xs h
    eq_value_refl (obj fs) h = eq_fields_refl fs h

    eq_items_refl : (xs : Items) → any_float xs ≡ false → eq_items float_eq xs xs ≡ true
    eq_items_refl nil h = refl
    eq_items_refl (cons x xs) h =
        let (head, rest) = or_parts _ _ h in
        both_hold _ _ (eq_value_refl x head) (eq_items_refl xs rest)

    eq_fields_refl : (fs : Fields) → any_float_in fs ≡ false → eq_fields float_eq fs fs ≡ true
    eq_fields_refl end h = refl
    eq_fields_refl (field k x fs) h =
        let (head, rest) = or_parts _ _ h in
        both_hold _ _ (both_hold _ _ ((eq_iff k k).1 refl) (eq_value_refl x head))
          (eq_fields_refl fs rest)

  pub eq_json_refl : (v : Json) → has_float v ≡ false → eq_json float_eq v v ≡ true
  eq_json_refl v h = eq_value_refl v h
