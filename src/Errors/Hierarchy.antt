-- ===== src/Errors/Hierarchy.antt =====
-- errors.py: what `isinstance` says of two classes, and the chains of base classes.
use rethinkdb_python.Base.{
  ℕ, zero, suc, ◌≡◌, refl, sym, ap, ◌∙◌, ◌↔◌, Bool, true, false, ◌||◌, Option, none, some, ◌==◌,
  ==_iff, ==_refl, Bool-cases, inl, inr, List, [], ◌∷◌,
}
use rethinkdb_python.Errors.{
  ErrorClass, cursor_empty, reql_error, compile_error, driver_compile_error, server_compile_error,
  runtime_error, query_logic_error, non_existence_error, resource_limit_error, user_error,
  internal_error, availability_error, op_failed_error, op_indeterminate_error, permission_error,
  driver_error, auth_error, timeout_error, base_class, class_index, is_a, is_instance,
}

-- A class inherits from itself, and from what its base class inherits from.
pub data Inherits : ErrorClass → ErrorClass → Type 0 where
  itself : {c : ErrorClass} → Inherits c c
  from_base : {c b d : ErrorClass} → base_class c ≡ some b → Inherits b d → Inherits c d

all_classes : List ErrorClass
all_classes =
    cursor_empty ∷ reql_error ∷ compile_error ∷ driver_compile_error ∷ server_compile_error
    ∷ runtime_error ∷ query_logic_error ∷ non_existence_error ∷ resource_limit_error ∷ user_error
    ∷ internal_error ∷ availability_error ∷ op_failed_error ∷ op_indeterminate_error
    ∷ permission_error ∷ driver_error ∷ auth_error ∷ timeout_error ∷ []

nth_class : ℕ → List ErrorClass → ErrorClass
nth_class n [] = cursor_empty
nth_class zero (c ∷ cs) = c
nth_class (suc n) (c ∷ cs) = nth_class n cs

class_at : ℕ → ErrorClass
unfolding all_classes nth_class
class_at n = nth_class n all_classes

class_at-index : (c : ErrorClass) → class_at (class_index c) ≡ c
unfolding class_at nth_class all_classes
class_at-index cursor_empty = refl
class_at-index reql_error = refl
class_at-index compile_error = refl
class_at-index driver_compile_error = refl
class_at-index server_compile_error = refl
class_at-index runtime_error = refl
class_at-index query_logic_error = refl
class_at-index non_existence_error = refl
class_at-index resource_limit_error = refl
class_at-index user_error = refl
class_at-index internal_error = refl
class_at-index availability_error = refl
class_at-index op_failed_error = refl
class_at-index op_indeterminate_error = refl
class_at-index permission_error = refl
class_at-index driver_error = refl
class_at-index auth_error = refl
class_at-index timeout_error = refl

class_index-injective : (c d : ErrorClass) → class_index c ≡ class_index d → c ≡ d
class_index-injective c d e = sym (class_at-index c) ∙ ap class_at e ∙ class_at-index d

-- No chain has more than four classes.
four_enough : (c d : ErrorClass) → is_a 5 c d ≡ is_a 4 c d
four_enough cursor_empty d = refl
four_enough reql_error d = refl
four_enough compile_error d = refl
four_enough driver_compile_error d = refl
four_enough server_compile_error d = refl
four_enough runtime_error d = refl
four_enough query_logic_error d = refl
four_enough non_existence_error d = refl
four_enough resource_limit_error d = refl
four_enough user_error d = refl
four_enough internal_error d = refl
four_enough availability_error d = refl
four_enough op_failed_error d = refl
four_enough op_indeterminate_error d = refl
four_enough permission_error d = refl
four_enough driver_error d = refl
four_enough auth_error d = refl
four_enough timeout_error d = refl

is_a-up :
    (n : ℕ) (c d : ErrorClass) (b : Option ErrorClass)
    → ((b : ErrorClass) → is_a n b d ≡ true → Inherits b d)
    → base_class c ≡ b
    → elim b [ none ↦ false | some b ↦ is_a n b d ] ≡ true
    → Inherits c d
is_a-up n c d none ih h e = cc
is_a-up n c d (some b) ih h e = from_base h (ih b e)

is_a-Inherits : (n : ℕ) (c d : ErrorClass) → is_a n c d ≡ true → Inherits c d
is_a-Inherits zero c d e = cc
is_a-Inherits (suc n) c d e = elim (Bool-cases (class_index c == class_index d)) [
  | inl same ↦ rw (class_index-injective c d ((==_iff _ _).0 same)) itself
  | inr other ↦ is_a-up n c d (base_class c) (λ b. is_a-Inherits n b d) refl (rw other at e)
]

is_a-base :
    (n : ℕ) (c b d : ErrorClass)
    → base_class c ≡ some b
    → is_a n b d ≡ true
    → is_a (suc n) c d ≡ true
is_a-base n c b d h e = rw (h, e) (or_true (class_index c == class_index d))
  where
    or_true : (x : Bool) → x || true ≡ true
    or_true true = refl
    or_true false = refl

is_instance-of : (c d : ErrorClass) → Inherits c d → is_instance c d ≡ true
is_instance-of c d itself = rw (==_refl (class_index c)) refl
is_instance-of c d (from_base {b = b} h i) =
    sym (four_enough c d) ∙ is_a-base 4 c b d h (is_instance-of b d i)

-- `isinstance` finds a class exactly where a chain of base classes leads to it.
pub is_instance_iff : (c d : ErrorClass) → (is_instance c d ≡ true) ↔ Inherits c d
is_instance_iff c d = (is_a-Inherits 4 c d, is_instance-of c d)
