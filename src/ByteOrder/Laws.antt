-- ===== src/ByteOrder/Laws.antt =====
-- Stores, loads and conversions undo one another on every host.
use dirty_net.Prelude.{ℕ, ◌^◌, ◌<◌, ◌≡◌, refl, ap, List, [], ◌∷◌, arith, length, All}
use dirty_net.ByteOrder.{
  ByteOrder, little, big, IsByte, store16, load16, store32, load32, htons, ntohs, htonl, ntohl,
}

pub load16-store16 : (o : ByteOrder) (v : ℕ) → v < 2 ^ 16 → load16 o (store16 o v) ≡ v
unfolding load16 store16
load16-store16 little v h = omega arith
load16-store16 big v h = omega arith

pub load32-store32 : (o : ByteOrder) (v : ℕ) → v < 2 ^ 32 → load32 o (store32 o v) ≡ v
unfolding load32 store32
load32-store32 little v h = omega arith
load32-store32 big v h = omega arith

abbrev pub four : ℕ → ℕ → ℕ → ℕ → List ℕ
four a b c d = a ∷ b ∷ c ∷ d ∷ []

pub store32-load32 :
    (o : ByteOrder) (a b c d : ℕ)
    → All IsByte (four a b c d)
    → store32 o (load32 o (four a b c d)) ≡ four a b c d
unfolding load32 store32
store32-load32 little a b c d h = ground arith
store32-load32 big a b c d h = ground arith

pub store16-load16 :
    (o : ByteOrder) (a b : ℕ) → IsByte a → IsByte b → store16 o (load16 o (a ∷ b ∷ [])) ≡ a ∷ b ∷ []
unfolding load16 store16
store16-load16 little a b ha hb = ground arith
store16-load16 big a b ha hb = ground arith

-- On every host the memory image of a converted number is its network form.
pub store32-htonl : (o : ByteOrder) (v : ℕ) → store32 o (htonl o v) ≡ store32 big v
unfolding htonl store32
store32-htonl o v = store32-load32 o _ _ _ _ (omega arith)

pub store16-htons : (o : ByteOrder) (v : ℕ) → store16 o (htons o v) ≡ store16 big v
unfolding htons store16
store16-htons o v = store16-load16 o _ _ (omega arith) (omega arith)

-- A number read from four bytes and converted is the network form's number.
pub ntohl-load32 :
    (o : ByteOrder) (a b c d : ℕ)
    → All IsByte (four a b c d)
    → ntohl o (load32 o (four a b c d)) ≡ load32 big (four a b c d)
unfolding ntohl
ntohl-load32 o a b c d h = ap (load32 big) (store32-load32 o a b c d h)

pub load32-four_lt : (a b c d : ℕ) → All IsByte (four a b c d) → load32 big (four a b c d) < 2 ^ 32
unfolding load32
load32-four_lt a b c d h = omega arith

-- ntohl undoes htonl, and ntohs undoes htons.
pub ntohl-htonl : (o : ByteOrder) (v : ℕ) → v < 2 ^ 32 → ntohl o (htonl o v) ≡ v
unfolding ntohl
ntohl-htonl o v h = rw (store32-htonl o v) (load32-store32 big v h)

pub ntohs-htons : (o : ByteOrder) (v : ℕ) → v < 2 ^ 16 → ntohs o (htons o v) ≡ v
unfolding ntohs
ntohs-htons o v h = rw (store16-htons o v) (load16-store16 big v h)

pub htons-ntohs : (o : ByteOrder) (v : ℕ) → v < 2 ^ 16 → htons o (ntohs o v) ≡ v
unfolding htons ntohs load16 store16
htons-ntohs little v h = omega arith
htons-ntohs big v h = omega arith

pub htons_lt : (o : ByteOrder) (v : ℕ) → htons o v < 2 ^ 16
unfolding htons load16 store16
htons_lt little v = omega arith
htons_lt big v = omega arith

pub ntohs_lt : (o : ByteOrder) (v : ℕ) → ntohs o v < 2 ^ 16
unfolding ntohs load16 store16
ntohs_lt little v = omega arith
ntohs_lt big v = omega arith

pub store32-All : (o : ByteOrder) (v : ℕ) → All IsByte (store32 o v)
unfolding store32
store32-All little v = omega arith
store32-All big v = omega arith

pub length-store32 : (o : ByteOrder) (v : ℕ) → length (store32 o v) ≡ 4
unfolding store32
length-store32 little v = refl
length-store32 big v = refl
