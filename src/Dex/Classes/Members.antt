-- ===== src/Dex/Classes/Members.antt =====
-- The way back: a list of methods, written with the differences of the indices, under `read_members`.
use android_workbench.Prelude.{
  ℕ, zero, suc, ◌+◌, ◌-◌, ◌/◌, ◌≤◌, ◌<◌, String, some, List, [], ◌∷◌, ◌++◌, length, length-append,
  ◌≡◌, refl, sym, ◌∙◌, ap, arith, append_assoc, append-nil,
}
use android_workbench.Protobuf.Varint.{encode_loop, encode_varint, len_loop, varint_len}
use android_workbench.Dex.Bytes.{read_uleb}
use android_workbench.Dex.Bytes.Leb.{read_uleb-encode_varint}
use android_workbench.Dex.Classes.{
  MethodId, Member, Listed, before, Entry, read_entry, read_members,
}

length-encode_loop : (fuel v : ℕ) → v < fuel → length (encode_loop fuel v) ≡ len_loop fuel v
unfolding encode_loop len_loop
length-encode_loop zero v h = absurd (omega arith)
length-encode_loop (suc fuel) v h = ground (arith, length-encode_loop fuel (v / 128))

length-encode_varint : (v : ℕ) → length (encode_varint v) ≡ varint_len v
unfolding encode_varint varint_len
length-encode_varint v = length-encode_loop (suc v) v (omega arith)

-- A number behind the front is read, and the offset is the end of a longer front.
read_next :
    (front : List ℕ) (v : ℕ) (rest : List ℕ)
    → read_uleb (front ++ (encode_varint v ++ rest)) (length front)
      ≡ some (v, length (front ++ encode_varint v))
read_next front v rest =
    let e : length front + varint_len v ≡ length (front ++ encode_varint v) =
      omega (arith, length-append front (encode_varint v), length-encode_varint v) in
    read_uleb-encode_varint front v rest ∙ ap (λ (n : ℕ). some (v, n)) e

-- The bytes of one entry.
abbrev pub written : ℕ → ℕ → ℕ → List ℕ
written diff access code_off =
    encode_varint diff ++ (encode_varint access ++ encode_varint code_off)

module _ (front a b c rest : List ℕ) where
  behind_first : front ++ ((a ++ (b ++ c)) ++ rest) ≡ front ++ (a ++ (b ++ (c ++ rest)))
  behind_first = rw (append_assoc a (b ++ c) rest, append_assoc b c rest) refl

  behind_second : front ++ ((a ++ (b ++ c)) ++ rest) ≡ (front ++ a) ++ (b ++ (c ++ rest))
  behind_second = behind_first ∙ sym (append_assoc front a (b ++ (c ++ rest)))

  behind_third : front ++ ((a ++ (b ++ c)) ++ rest) ≡ ((front ++ a) ++ b) ++ (c ++ rest)
  behind_third = behind_second ∙ sym (append_assoc (front ++ a) b (c ++ rest))

  all_three : ((front ++ a) ++ b) ++ c ≡ front ++ (a ++ (b ++ c))
  all_three = append_assoc (front ++ a) b c ∙ append_assoc front a (b ++ c)

read_from :
    (d front : List ℕ) (v : ℕ) (rest : List ℕ)
    → d ≡ front ++ (encode_varint v ++ rest)
    → read_uleb d (length front) ≡ some (v, length (front ++ encode_varint v))
read_from d front v rest e = rw e (read_next front v rest)

-- The entry that is read, and the front that ends behind it.
abbrev entry_at : List ℕ → ℕ → ℕ → ℕ → Entry
entry_at front diff access code_off = record {
  diff = diff;
  access = access;
  code_off = code_off;
  next = length (front ++ written diff access code_off);
}

read_written :
    (front : List ℕ) (diff access code_off : ℕ) (rest : List ℕ)
    → read_entry (front ++ (written diff access code_off ++ rest)) (length front)
      ≡ some (entry_at front diff access code_off)
unfolding read_entry
read_written front diff access code_off rest =
    let a = encode_varint diff in
    let b = encode_varint access in
    let c = encode_varint code_off in
    let d = front ++ (written diff access code_off ++ rest) in
    let first = read_from d front diff (b ++ (c ++ rest)) (behind_first front a b c rest) in
    let second = read_from d (front ++ a) access (c ++ rest) (behind_second front a b c rest) in
    let third = read_from d ((front ++ a) ++ b) code_off rest (behind_third front a b c rest) in
    rw (first, second, third, all_three front a b c) refl

-- A method as it is to be listed: its index, its flags, and where its code is.
pub record Item : Type 0 where
  pub index : ℕ
  pub access : ℕ
  pub code_off : ℕ

-- The bytes of a list of methods, whose indices are written as differences.
abbrev pub all_written : ℕ → List Item → List ℕ
all_written running [] = []
all_written running (x ∷ xs) =
    written (x.index - running) x.access x.code_off ++ all_written x.index xs

-- The indices do not fall.
abbrev pub Ascending : ℕ → List Item → Type 0
Ascending running [] = Unit
Ascending running (x ∷ xs) = (running ≤ x.index) × Ascending x.index xs

module _ (names : ℕ → MethodId) (section : String) where
  abbrev pub listed_item : Item → Member
  listed_item x = record {
    section = section;
    index = x.index;
    method = names x.index;
    code_off = x.code_off;
  }

  abbrev pub all_listed : List Item → Listed → Listed
  all_listed [] rest = rest
  all_listed (x ∷ xs) rest = before (listed_item x) (all_listed xs rest)

  read_behind :
      (xs : List Item) (d front rest : List ℕ) (running : ℕ) (k : ℕ → Listed)
      → Ascending running xs
      → d ≡ front ++ (all_written running xs ++ rest)
      → read_members (λ i. some (names i)) section d (length xs) (length front) running k
        ≡ all_listed xs (k (length (front ++ all_written running xs)))
  unfolding read_members
  read_behind [] d front rest running k h e = rw (append-nil front) refl
  read_behind (x ∷ xs) d front rest running k h e =
      let one = written (x.index - running) x.access x.code_off in
      let more = all_written x.index xs in
      let index : running + (x.index - running) ≡ x.index = omega (arith, h.0) in
      let e' : d ≡ front ++ (one ++ (more ++ rest)) =
        e ∙ ap (λ (t : List ℕ). front ++ t) (append_assoc one more rest) in
      let entry = read_written front (x.index - running) x.access x.code_off (more ++ rest) in
      let ih =
        read_behind xs d (front ++ one) rest x.index k h.1
          (e' ∙ sym (append_assoc front one (more ++ rest))) in
      rw (ap (λ t. read_entry t (length front)) e' ∙ entry, index)
        (ap (before (listed_item x))
          (ih ∙ ap (λ t. all_listed xs (k (length t))) (append_assoc front one more)))

  -- A list of methods that stands anywhere in a file, with indices that do not fall, is read back where
  -- every index has a name: every method with its own index, and then what stands behind the list.
  pub read_members-all_written :
      (xs : List Item) (front rest : List ℕ) (running : ℕ) (k : ℕ → Listed)
      → Ascending running xs
      → read_members
          (λ i. some (names i))
          section
          (front ++ (all_written running xs ++ rest))
          (length xs)
          (length front)
          running
          k
        ≡ all_listed xs (k (length (front ++ all_written running xs)))
  read_members-all_written xs front rest running k h =
      read_behind xs (front ++ (all_written running xs ++ rest)) front rest running k h refl
