-- ===== src/Community/Printed.antt =====
-- lib/utils/bgpstream_utils_community.c: what is printed of communities, and that
-- bgpstream_str2community reads it back.
use bgpstream.Base.{
  ℕ, min, ◌+◌, ◌-◌, ◌%◌, ◌^◌, ◌≤◌, ◌<◌, ◌≡◌, ◌≢◌, ◌⊎◌, inl, inr, refl, sym, ap, ◌∙◌, true, false,
  some, List, [], ◌∷◌, ◌++◌, arith, leb, ◌==◌, length, length-append, take, All,
}
use bgpstream.Base.CString.{
  split_at, is_digit, is_space, read_digits, starts_digit, read_number, read_signed, skip_space,
  strtoul,
}
use bgpstream.AsPath.Memory.{Mem, Holds, Holds-append}
use bgpstream.AsPath.Print.{decimal}
use bgpstream.AsPath.Digits.{tens, digits-All, length-digits, read_digits-digits, starts-decimal}
use bgpstream.AsPath.Message.{All-append}
use bgpstream.AsPath.Appends.{Appends, take_le}
use bgpstream.AsPath.SegPrinted.{IsEnded, put_text-Appends}
use bgpstream.Community.{Community, filter_exact}
use bgpstream.Community.Parse.{read_half, str2community}
use bgpstream.Community.Print.{community_text, community_snprintf}

-- A text that stands in a buffer with a NUL behind it; nothing outside of the buffer has changed.
pub record IsPrinted (mem : Mem) (buf len : ℕ) (text : List ℕ) (mem' : Mem) (size : ℕ)
    : Type 0 where
  pub count : size ≡ length text
  pub there : Holds mem' buf (text ++ (0 ∷ []))
  pub frame : (i : ℕ) → (i < buf) ⊎ (buf + len ≤ i) → mem' i ≡ mem i

-- It is there where the buffer has room for all of it.
pub Appends-IsPrinted :
    (mem : Mem) (buf len : ℕ) (text : List ℕ) (mem' : Mem) (size : ℕ)
    → Appends buf len text mem 0 mem' size
    → length text < len
    → mem' (buf + size) ≡ 0
    → IsPrinted mem buf len text mem' size
unfolding Holds
Appends-IsPrinted mem buf len text mem' size p room nul =
    let at : buf + 0 ≡ buf = omega arith in
    let whole : take (len - 1 - 0) text ≡ text = take_le (len - 1 - 0) text (omega arith) in
    let end_at : buf + size ≡ buf + length text = omega (arith, p.count) in
    record {
      count = omega (arith, p.count);
      there =
          Holds-append mem' buf (buf + length text) text (0 ∷ []) refl (rw (whole, at) at p.there)
            (ap mem' (sym end_at) ∙ nul, tt);
      frame = λ i out. p.frame i (elim out [ inl x ↦ inl (omega arith) | inr y ↦ inr y ]);
    }

-- A text that starts with a digit has no space and no sign in front.
strtoul-digits :
    (text : List ℕ) (n : ℕ)
    → starts_digit text ≡ true
    → read_digits text 0 ≡ (n, [])
    → n < 2 ^ 64
    → strtoul text ≡ (n, [], false)
unfolding strtoul read_signed read_number skip_space is_space is_digit
strtoul-digits [] n s r lt = absurd (ground arith)
strtoul-digits (c ∷ cs) n s r lt =
    let space : is_space c ≡ false = ground arith in
    let minus : (c == 45) ≡ false = ground arith in
    let plus : (c == 43) ≡ false = ground arith in
    let below : leb (2 ^ 64) n ≡ false = ground arith in
    rw (skip_space, space, minus, plus, s, r, below) refl

read_half-digits :
    (text : List ℕ) (n : ℕ)
    → starts_digit text ≡ true
    → strtoul text ≡ (n, [], false)
    → n < 2 ^ 16
    → read_half text ≡ some (n, true)
unfolding read_half is_digit
read_half-digits [] n s r lt = absurd (ground arith)
read_half-digits (c ∷ cs) n s r lt =
    let star : (c == b'*') ≡ false = ground arith in
    let whole : n % 2 ^ 16 ≡ n = ground arith in rw (star, r, whole) refl

read_half-decimal : (n : ℕ) → n < 2 ^ 16 → read_half (decimal n) ≡ some (n, true)
unfolding tens
read_half-decimal n lt =
    let read : read_digits (decimal n) 0 ≡ read_digits [] n =
      read_digits-digits 10 n [] (omega arith) in
    read_half-digits (decimal n) n (starts-decimal n)
      (strtoul-digits (decimal n) n (starts-decimal n) (unfold read_digits in read) (omega arith))
      lt

length-decimal : (n : ℕ) → n < 2 ^ 16 → length (decimal n) ≤ 5
unfolding tens
length-decimal n lt = omega (arith, length-digits 10 n 5 [] (omega arith) (omega arith))

split_at-append :
    (c : ℕ) (front back : List ℕ)
    → All (λ x. x ≢ c) front
    → split_at c (front ++ (c ∷ back)) ≡ some (front, back)
unfolding split_at
split_at-append c [] back other = let e : (c == c) ≡ true = ground arith in rw e refl
split_at-append c (x ∷ front) back (differs, other) =
    let e : (x == c) ≡ false = ground arith in rw (e, split_at-append c front back other) refl

str2community-text :
    (comm : Community)
    → comm.asn < 2 ^ 16
    → comm.value < 2 ^ 16
    → str2community (community_text comm) ≡ some (comm, filter_exact)
unfolding str2community community_text
str2community-text comm a v =
    let short : length (decimal comm.asn ++ (b':' ∷ decimal comm.value)) ≤ 16 = omega (
      arith,
      length-append (decimal comm.asn) (b':' ∷ decimal comm.value),
      length-decimal comm.asn a,
      length-decimal comm.value v,
    ) in
    let other : All (λ x. x ≢ b':') (decimal comm.asn) =
      digits-All (λ x. x ≢ b':') 10 comm.asn [] (λ d lt. omega arith) tt in
    rw
      (
        str2community,
        take_le 16 (decimal comm.asn ++ (b':' ∷ decimal comm.value)) short,
        split_at-append b':' (decimal comm.asn) (decimal comm.value) other,
        read_half-decimal comm.asn a,
        read_half-decimal comm.value v,
      )
      refl

length-community_text :
    (comm : Community) → comm.asn < 2 ^ 16 → comm.value < 2 ^ 16 → length (community_text comm) ≤ 11
unfolding community_text
length-community_text comm a v = omega (
  arith,
  length-append (decimal comm.asn) (b':' ∷ decimal comm.value),
  length-decimal comm.asn a,
  length-decimal comm.value v,
)

community_text-nonzero : (comm : Community) → All (λ c. c ≢ 0) (community_text comm)
unfolding community_text
community_text-nonzero comm =
    All-append (λ c. c ≢ 0) (decimal comm.asn) (b':' ∷ decimal comm.value)
      (digits-All (λ c. c ≢ 0) 10 comm.asn [] (λ d lt. omega arith) tt)
      (omega arith, digits-All (λ c. c ≢ 0) 10 comm.value [] (λ d lt. omega arith) tt)

-- Whatever the memory, a community whose halves have 16 bits, printed to a buffer of at least 12 bytes,
-- stands there as a text without a NUL in it and with one behind it; snprintf returns the length of this
-- text and changes nothing outside of the buffer, and str2community reads the text back: it gives the
-- same community and returns the mask 3, for both halves given.
pub str2community-snprintf :
    (mem : Mem) (buf len : ℕ) (comm : Community)
    → comm.asn < 2 ^ 16
    → comm.value < 2 ^ 16
    → 12 ≤ len
    → let printed = community_snprintf mem buf len comm in
      (text : List ℕ) × IsPrinted mem buf len text printed.0 printed.1
      × All (λ c. c ≢ 0) text
      × (str2community text ≡ some (comm, filter_exact))
unfolding community_snprintf IsEnded
str2community-snprintf mem buf len comm a v room =
    let text = community_text comm in
    let (p, ended) = put_text-Appends mem buf len text in
    let (mem', size) = community_snprintf mem buf len comm in
    let fits : length text ≤ 11 = length-community_text comm a v in
    let end_at : buf + min size (len - 1) ≡ buf + size = omega (arith, p.count) in
    (
      text,
      Appends-IsPrinted mem buf len text mem' size p (omega arith)
          (ap mem' (sym end_at) ∙ ended (omega arith)),
      community_text-nonzero comm,
      str2community-text comm a v,
    )
