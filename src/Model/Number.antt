-- ===== src/Model/Number.antt =====
-- `IsPrimaryKeyZero`, `SetPrimaryKeyValue` and `isPKNumeric`: the numbers in a primary key.
use relica.Prelude.{
  ℕ, ◌+◌, ◌<◌, ◌==◌, ltb, leb, ◌≡◌, ◌↔◌, ◌⊎◌, refl, Bool, true, false, if◌then◌else◌, Option, none,
  some, arith, inl, inr, Bool-cases,
}
use relica.Prelude.Ints.{ℤ, pos, negsuc}

-- The sizes of Go's integers; `int` and `uint` are those of 64 bits.
pub data Width : Type 0 where
  w8 w16 w32 w64 : Width

abbrev pub half : Width → ℕ
half w8 = 128
half w16 = 32768
half w32 = 2147483648
half w64 = 9223372036854775808

-- What a pointer that is nil would point to.
pub data Shape : Type 0 where
  signed_shape unsigned_shape : Width → Shape
  pointer_shape : Shape → Shape
  other_shape : Shape

-- A `reflect.Value`, by its kind.
pub data Cell : Type 0 where
  signed : Width → ℤ → Cell
  unsigned : Width → ℕ → Cell
  nil_pointer : Shape → Cell
  pointer : Cell → Cell
  other_cell : Cell

abbrev pub is_zero_int : ℤ → Bool
is_zero_int (pos n) = n == 0
is_zero_int (negsuc n) = false

-- `IsPrimaryKeyZero`.
unfoldable pub is_primary_key_zero : Cell → Bool
is_primary_key_zero (signed w n) = is_zero_int n
is_primary_key_zero (unsigned w n) = n == 0
is_primary_key_zero (nil_pointer s) = true
is_primary_key_zero (pointer c) = is_primary_key_zero c
is_primary_key_zero other_cell = false

-- The range checks; for 64 bits there is none, since the id is an `int64`.
abbrev pub in_signed : Width → ℤ → Bool
in_signed w64 id = true
in_signed w8 (pos n) = ltb n 128
in_signed w8 (negsuc n) = ltb n 128
in_signed w16 (pos n) = ltb n 32768
in_signed w16 (negsuc n) = ltb n 32768
in_signed w32 (pos n) = ltb n 2147483648
in_signed w32 (negsuc n) = ltb n 2147483648

-- `uint64(id)` for an id that passes the check.
abbrev pub in_unsigned : Width → ℤ → Option ℕ
in_unsigned w (negsuc n) = none
in_unsigned w8 (pos n) = if leb n 255 then some n else none
in_unsigned w16 (pos n) = if leb n 65535 then some n else none
in_unsigned w32 (pos n) = if leb n 4294967295 then some n else none
in_unsigned w64 (pos n) = some n

abbrev pub set_signed : Width → ℤ → ℤ → Bool × Cell
set_signed w old id = if in_signed w id then (true, signed w id) else (false, signed w old)

abbrev pub set_unsigned : Width → ℕ → ℤ → Bool × Cell
set_unsigned w old id = elim (in_unsigned w id) [
  | none ↦ (false, unsigned w old)
  | some n ↦ (true, unsigned w n)
]

abbrev pub behind : Bool × Cell → Bool × Cell
behind (b, c) = (b, pointer c)

-- A new value of the shape, set; a pointer keeps the new value also where that fails.
abbrev pub set_new : Shape → ℤ → Bool × Cell
set_new (signed_shape w) id = set_signed w (pos 0) id
set_new (unsigned_shape w) id = set_unsigned w 0 id
set_new (pointer_shape s) id = behind (set_new s id)
set_new other_shape id = (false, other_cell)

-- `SetPrimaryKeyValue` of a field that can be set: whether it succeeds, and the field then.
unfoldable pub set_primary_key_value : Cell → ℤ → Bool × Cell
set_primary_key_value (signed w n) id = set_signed w n id
set_primary_key_value (unsigned w n) id = set_unsigned w n id
set_primary_key_value (nil_pointer s) id = behind (set_new s id)
set_primary_key_value (pointer c) id = behind (set_primary_key_value c id)
set_primary_key_value other_cell id = (false, other_cell)

abbrev pub is_numeric_shape : Shape → Bool
is_numeric_shape (signed_shape w) = true
is_numeric_shape (unsigned_shape w) = true
is_numeric_shape (pointer_shape s) = false
is_numeric_shape other_shape = false

abbrev pub is_number : Cell → Bool
is_number (signed w n) = true
is_number (unsigned w n) = true
is_number (nil_pointer s) = false
is_number (pointer c) = false
is_number other_cell = false

-- `isPKNumeric`, which looks through one pointer.
unfoldable pub is_pk_numeric : Cell → Bool
is_pk_numeric (signed w n) = true
is_pk_numeric (unsigned w n) = true
is_pk_numeric (nil_pointer s) = is_numeric_shape s
is_pk_numeric (pointer c) = is_number c
is_pk_numeric other_cell = false

-- The number in a field, behind its pointers.
abbrev pub number_in : Cell → Option ℤ
number_in (signed w n) = some n
number_in (unsigned w n) = some (pos n)
number_in (nil_pointer s) = none
number_in (pointer c) = number_in c
number_in other_cell = none

-- The integers that a kind holds.
abbrev pub IsSigned : Width → ℤ → Type 0
IsSigned w (pos n) = n < half w
IsSigned w (negsuc n) = n < half w

abbrev pub IsUnsigned : Width → ℤ → Type 0
IsUnsigned w (pos n) = n < half w + half w
IsUnsigned w (negsuc n) = ⊥

-- Every number in a cell is one that its kind holds.
abbrev pub IsWellTyped : Cell → Type 0
IsWellTyped (signed w n) = IsSigned w n
IsWellTyped (unsigned w n) = n < half w + half w
IsWellTyped (nil_pointer s) = Unit
IsWellTyped (pointer c) = IsWellTyped c
IsWellTyped other_cell = Unit

-- A set that succeeded: the number is in the field, whose kind holds it, and the field is zero
-- exactly if the number is. One that failed leaves every number within its kind.
pub record IsStored (id : ℤ) (b : Bool) (c : Cell) : Type 0 where
  pub typed : IsWellTyped c
  pub holds : (b ≡ false) ⊎ (number_in c ≡ some id)
  pub zero_as : (b ≡ false) ⊎ (is_primary_key_zero c ≡ is_zero_int id)

set_signed-IsStored :
    (w : Width) (old id : ℤ)
    → IsSigned w64 id
    → IsSigned w old
    → IsStored id (set_signed w old id).0 (set_signed w old id).1
unfolding is_primary_key_zero
set_signed-IsStored w8 old (pos n) h k = elim (Bool-cases (in_signed w8 (pos n))) [
  | inl e ↦ rw e (record { typed = ground arith; holds = inr refl; zero_as = inr refl })
  | inr e ↦ rw e (record { typed = k; holds = inl refl; zero_as = inl refl })
]
set_signed-IsStored w8 old (negsuc n) h k = elim (Bool-cases (in_signed w8 (negsuc n))) [
  | inl e ↦ rw e (record { typed = ground arith; holds = inr refl; zero_as = inr refl })
  | inr e ↦ rw e (record { typed = k; holds = inl refl; zero_as = inl refl })
]
set_signed-IsStored w16 old (pos n) h k = elim (Bool-cases (in_signed w16 (pos n))) [
  | inl e ↦ rw e (record { typed = ground arith; holds = inr refl; zero_as = inr refl })
  | inr e ↦ rw e (record { typed = k; holds = inl refl; zero_as = inl refl })
]
set_signed-IsStored w16 old (negsuc n) h k = elim (Bool-cases (in_signed w16 (negsuc n))) [
  | inl e ↦ rw e (record { typed = ground arith; holds = inr refl; zero_as = inr refl })
  | inr e ↦ rw e (record { typed = k; holds = inl refl; zero_as = inl refl })
]
set_signed-IsStored w32 old (pos n) h k = elim (Bool-cases (in_signed w32 (pos n))) [
  | inl e ↦ rw e (record { typed = ground arith; holds = inr refl; zero_as = inr refl })
  | inr e ↦ rw e (record { typed = k; holds = inl refl; zero_as = inl refl })
]
set_signed-IsStored w32 old (negsuc n) h k = elim (Bool-cases (in_signed w32 (negsuc n))) [
  | inl e ↦ rw e (record { typed = ground arith; holds = inr refl; zero_as = inr refl })
  | inr e ↦ rw e (record { typed = k; holds = inl refl; zero_as = inl refl })
]
set_signed-IsStored w64 old (pos n) h k = record { typed = h; holds = inr refl; zero_as = inr refl }
set_signed-IsStored w64 old (negsuc n) h k = record {
  typed = h;
  holds = inr refl;
  zero_as = inr refl;
}

set_unsigned-IsStored :
    (w : Width) (old : ℕ) (id : ℤ)
    → IsSigned w64 id
    → old < half w + half w
    → IsStored id (set_unsigned w old id).0 (set_unsigned w old id).1
unfolding is_primary_key_zero
set_unsigned-IsStored w8 old (pos n) h k = ground arith
set_unsigned-IsStored w16 old (pos n) h k = ground arith
set_unsigned-IsStored w32 old (pos n) h k = ground arith
set_unsigned-IsStored w64 old (pos n) h k = record {
  typed = omega arith;
  holds = inr refl;
  zero_as = inr refl;
}
set_unsigned-IsStored w old (negsuc n) h k = record {
  typed = k;
  holds = inl refl;
  zero_as = inl refl;
}

behind-IsStored :
    (id : ℤ) (r : Bool × Cell) → IsStored id r.0 r.1 → IsStored id (behind r).0 (behind r).1
unfolding is_primary_key_zero
behind-IsStored id (b, c) s = record { typed = s.typed; holds = s.holds; zero_as = s.zero_as }

set_new-IsStored :
    (s : Shape) (id : ℤ) → IsSigned w64 id → IsStored id (set_new s id).0 (set_new s id).1
unfolding is_primary_key_zero
set_new-IsStored (signed_shape w) id h = set_signed-IsStored w (pos 0) id h (small w)
  where
    small : (w : Width) → 0 < half w
    small w8 = omega arith
    small w16 = omega arith
    small w32 = omega arith
    small w64 = omega arith
set_new-IsStored (unsigned_shape w) id h = set_unsigned-IsStored w 0 id h (small w)
  where
    small : (w : Width) → 0 < half w + half w
    small w8 = omega arith
    small w16 = omega arith
    small w32 = omega arith
    small w64 = omega arith
set_new-IsStored (pointer_shape s) id h =
    behind-IsStored id (set_new s id) (set_new-IsStored s id h)
set_new-IsStored other_shape id h = record { typed = tt; holds = inl refl; zero_as = inl refl }

-- For an id of 64 bits, `SetPrimaryKeyValue` never stores a number that the field's kind does not
-- hold. Where it succeeds, the field then holds the id, behind as many pointers as it has, and
-- `IsPrimaryKeyZero` says whether the id is 0.
pub set_primary_key_value-IsStored :
    (c : Cell) (id : ℤ)
    → IsSigned w64 id
    → IsWellTyped c
    → IsStored id (set_primary_key_value c id).0 (set_primary_key_value c id).1
unfolding set_primary_key_value
set_primary_key_value-IsStored (signed w n) id h k = set_signed-IsStored w n id h k
set_primary_key_value-IsStored (unsigned w n) id h k = set_unsigned-IsStored w n id h k
set_primary_key_value-IsStored (nil_pointer s) id h k =
    behind-IsStored id (set_new s id) (set_new-IsStored s id h)
set_primary_key_value-IsStored (pointer c) id h k =
    behind-IsStored id (set_primary_key_value c id) (set_primary_key_value-IsStored c id h k)
set_primary_key_value-IsStored other_cell id h k = record {
  typed = tt;
  holds = inl refl;
  zero_as = inl refl;
}

-- For a field of an integer kind, `SetPrimaryKeyValue` fails exactly for the ids that the kind does
-- not hold.
pub set_primary_key_value-succeeds :
    (w : Width) (old : ℕ) (id : ℤ)
    → IsSigned w64 id
    → (((set_primary_key_value (signed w (pos old)) id).0 ≡ true) ↔ IsSigned w id)
      × (((set_primary_key_value (unsigned w old) id).0 ≡ true) ↔ IsUnsigned w id)
unfolding set_primary_key_value
set_primary_key_value-succeeds w8 old (pos n) h = ground arith
set_primary_key_value-succeeds w8 old (negsuc n) h = ground arith
set_primary_key_value-succeeds w16 old (pos n) h = ground arith
set_primary_key_value-succeeds w16 old (negsuc n) h = ground arith
set_primary_key_value-succeeds w32 old (pos n) h = ground arith
set_primary_key_value-succeeds w32 old (negsuc n) h = ground arith
set_primary_key_value-succeeds w64 old (pos n) h = ground arith
set_primary_key_value-succeeds w64 old (negsuc n) h = ground arith
