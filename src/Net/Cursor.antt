-- ===== src/Net/Cursor.antt =====
-- What src/net/mod.rs uses of the crate `byteorder` on `std::io::Cursor`, as a parameter: a cursor
-- is its bytes and its position. A read gives the value and the cursor behind it, or fails; a write
-- to a vector does not fail.
use verfploeter.Prelude.{
  [], ℕ, ◌+◌, ◌-◌, ◌*◌, ◌/◌, ◌%◌, ◌≡◌, sym, List, ◌∷◌, ◌++◌, Option, none, some, length, get_or,
  take, drop, replicate, leb, if◌then◌else◌,
}

pub record Cursor : Type 0 where
  pub inner : List ℕ
  pub position : ℕ

abbrev pub new : List ℕ → Cursor
new data_bytes = record { inner = data_bytes; position = 0 }

abbrev pub set_position : ℕ → Cursor → Cursor
set_position p c = record c { position = p }

pub record ByteOrder : Type 0 where
  pub read_u8 : Cursor → Option (ℕ × Cursor)
  -- `read_u16::<NetworkEndian>` and `read_u16::<LittleEndian>`
  pub read_u16 : Cursor → Option (ℕ × Cursor)
  pub read_u16_le : Cursor → Option (ℕ × Cursor)
  -- `read_u32::<NetworkEndian>`
  pub read_u32 : Cursor → Option (ℕ × Cursor)
  -- On a vector: `write_u8` and `write_u16::<NetworkEndian>` append.
  pub write_u8 : ℕ → List ℕ → List ℕ
  pub write_u16 : ℕ → List ℕ → List ℕ
  -- On a cursor over a vector: `write_u16::<LittleEndian>`.
  pub write_u16_le : ℕ → Cursor → Cursor

abbrev byte : Cursor → ℕ → ℕ
byte c i = get_or c.inner (c.position + i) 0

-- A value of so many bytes, if they are there.
abbrev read : ℕ → ℕ → Cursor → Option (ℕ × Cursor)
read n v c =
    if leb (c.position + n) (length c.inner)
    then some (v, record c { position = c.position + n })
    else none

-- The documented behaviour, for numbers that fit: network order has the high byte first. A write
-- past the end of a vector fills the gap with zeros and extends the vector.
abbrev pub documented : ByteOrder
documented = record {
  read_u8 = λ c. read 1 (byte c 0) c;
  read_u16 = λ c. read 2 (byte c 0 * 256 + byte c 1) c;
  read_u16_le = λ c. read 2 (byte c 0 + byte c 1 * 256) c;
  read_u32 = λ c. read 4 (((byte c 0 * 256 + byte c 1) * 256 + byte c 2) * 256 + byte c 3) c;
  write_u8 = λ v out. out ++ (v ∷ []);
  write_u16 = λ v out. out ++ (v / 256 ∷ v % 256 ∷ []);
  write_u16_le = λ v c. record {
    inner =
        take c.position (c.inner ++ replicate (c.position - length c.inner) 0)
        ++ (v % 256 ∷ v / 256 ∷ drop (c.position + 2) c.inner);
    position = c.position + 2;
  };
}

pub record IsByteOrder (b : ByteOrder) : Type 0 where
  pub read_u8_lem : (c : Cursor) → b.read_u8 c ≡ documented.read_u8 c
  pub read_u16_lem : (c : Cursor) → b.read_u16 c ≡ documented.read_u16 c
  pub read_u16_le_lem : (c : Cursor) → b.read_u16_le c ≡ documented.read_u16_le c
  pub read_u32_lem : (c : Cursor) → b.read_u32 c ≡ documented.read_u32 c
  pub write_u8_lem : (v : ℕ) (out : List ℕ) → b.write_u8 v out ≡ documented.write_u8 v out
  pub write_u16_lem : (v : ℕ) (out : List ℕ) → b.write_u16 v out ≡ documented.write_u16 v out
  pub write_u16_le_lem : (v : ℕ) (c : Cursor) → b.write_u16_le v c ≡ documented.write_u16_le v c

-- The behaviour fixes the operations, so what holds of the documented ones holds of `b`.
pub IsByteOrder-eq : (b : ByteOrder) → IsByteOrder b → documented ≡ b
IsByteOrder-eq b h = sym (λ i. record {
  read_u8 = λ c. h.read_u8_lem c i;
  read_u16 = λ c. h.read_u16_lem c i;
  read_u16_le = λ c. h.read_u16_le_lem c i;
  read_u32 = λ c. h.read_u32_lem c i;
  write_u8 = λ v out. h.write_u8_lem v out i;
  write_u16 = λ v out. h.write_u16_lem v out i;
  write_u16_le = λ v c. h.write_u16_le_lem v c i;
})
