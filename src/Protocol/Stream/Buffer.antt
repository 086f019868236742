-- ===== src/Protocol/Stream/Buffer.antt =====
-- What the array operations do to the bytes held.
use oomwoo_firmware.Prelude.{
  ℕ, ◌+◌, ◌-◌, ◌≤◌, ◌<◌, ◌≡◌, refl, sym, ap, ◌∙◌, Bool, true, false, ◌&&◌, ◌||◌, Option, inl, inr,
  [], ◌∷◌, ◌++◌, append_assoc, arith, length, take, drop, length-take, length-drop, length-append,
  drop-take, drop_prefix, take_all, drop_all, take-append-drop, get_or-append, get_or-take, Bytes,
  byte_at, ltb, ◌==◌, if◌then◌else◌, Bool-cases, memmove_front, take-append_le,
}
use oomwoo_firmware.Protocol.{magic_0, magic_1, max_frame_size}
use oomwoo_firmware.Protocol.Stream.{
  StreamDecoder, count_discarded, remove_prefix, find_magic, resync_at, resync_after_error,
}
use oomwoo_firmware.Protocol.Stream.Reference.{sync, resync}

pub record IsValid (d : StreamDecoder) : Type 0 where
  pub whole : length d.buffer ≡ max_frame_size
  pub fits : d.buffered_bytes ≤ max_frame_size

abbrev pub contents : StreamDecoder → Bytes
contents d = take d.buffered_bytes d.buffer

pub length-contents : (d : StreamDecoder) → IsValid d → length (contents d) ≡ d.buffered_bytes
length-contents d v = omega (arith, v.whole, v.fits, length-take d.buffered_bytes d.buffer)

-- After a removal the array still has its size, and holds the rest of the bytes in order.
pub record Removed (d : StreamDecoder) (count : ℕ) (discarded : Bool) (e : StreamDecoder)
    : Type 0 where
  pub valid : IsValid e
  pub kept : contents e ≡ drop count (contents d)
  pub counted : e.stats ≡ (if discarded then count_discarded d.stats count else d.stats)

length-memmove_front :
    (buf : Bytes) (from count : ℕ)
    → from + count ≤ length buf
    → length (memmove_front buf from count) ≡ length buf
length-memmove_front buf from count h = omega (
  arith,
  length-append (take count (drop from buf)) (drop count buf),
  length-take count (drop from buf),
  length-drop from buf,
  length-drop count buf,
)

take-memmove_front :
    (buf : Bytes) (from count : ℕ)
    → from + count ≤ length buf
    → take count (memmove_front buf from count) ≡ take count (drop from buf)
take-memmove_front buf from count h =
    let moved = take count (drop from buf) in
    take-append_le count moved (drop count buf)
      (omega (arith, length-take count (drop from buf), length-drop from buf))
    ∙ take_all count moved (omega (arith, length-take count (drop from buf)))

module _ (d : StreamDecoder) (v : IsValid d) (count : ℕ) (discarded : Bool) (some_bytes : 0 < count)
    (inside : count ≤ d.buffered_bytes) where
  abbrev left : ℕ
  left = d.buffered_bytes - count

  abbrev moved : Bytes
  moved = if left == 0 then d.buffer else memmove_front d.buffer count left

  removed : remove_prefix d count discarded ≡ record {
    buffer = moved;
    buffered_bytes = left;
    stats = if discarded then count_discarded d.stats count else d.stats;
  }
  unfolding remove_prefix
  removed = let runs : (count == 0 || ltb d.buffered_bytes count) ≡ false = ground arith in rw runs

  length-moved : length moved ≡ max_frame_size
  length-moved = elim (Bool-cases (left == 0)) [
    | inl none_left ↦ rw none_left v.whole
    | inr some_left ↦
        rw some_left
          (length-memmove_front d.buffer count left (omega (arith, v.whole, v.fits)) ∙ v.whole)
  ]

  take-moved : take left moved ≡ take left (drop count d.buffer)
  take-moved = elim (Bool-cases (left == 0)) [
    | inl none_left ↦ let e : left ≡ 0 = ground arith in rw none_left (rw e)
    | inr some_left ↦
        rw some_left (take-memmove_front d.buffer count left (omega (arith, v.whole, v.fits)))
  ]

  pub remove_prefix-Removed : Removed d count discarded (remove_prefix d count discarded)
  remove_prefix-Removed = rw removed (record {
    valid = record { whole = length-moved; fits = omega (arith, v.fits) };
    kept =
        take-moved
        ∙ drop-take count left d.buffer
        ∙ ap (λ k. drop count (take k d.buffer)) (omega arith);
    counted = refl;
  })

-- The target of a resynchronisation of `d`, whose bytes are `p`, where `front` is passed over and
-- `xs` is still to be looked through.
record Target (d : StreamDecoder) (front xs : Bytes) (found : Option ℕ) : Type 0 where
  at : ℕ
  behind : length front ≤ at
  inside : at ≤ length (front ++ xs)
  kept : drop at (front ++ xs) ≡ sync xs
  moves : resync_at d found ≡ remove_prefix d at true

-- The decoder's array begins with these bytes, and it holds no others.
abbrev Shows : StreamDecoder → Bytes → Type 0
Shows d p =
    (d.buffered_bytes ≡ length p) × ((i : ℕ) → i < length p → byte_at d.buffer i ≡ byte_at p i)

find_magic-Target :
    (d : StreamDecoder) (front : Bytes) (x : ℕ) (xs : Bytes)
    → Shows d (front ++ (x ∷ xs))
    → Target d front (x ∷ xs) (find_magic d.buffer (length xs) (length front))
unfolding find_magic resync_at sync
find_magic-Target d front x [] (n, same) =
    let p = front ++ (x ∷ []) in
    let size : length p ≡ length front + 1 = length-append front (x ∷ []) in
    let last : byte_at d.buffer (d.buffered_bytes - 1) ≡ x =
      ap (byte_at d.buffer) (omega arith)
      ∙ same (length front) (omega arith)
      ∙ get_or-append front (x ∷ []) 0 (length front) 0 (omega arith) in
    let some_byte : (d.buffered_bytes == 0) ≡ false = ground arith in
    elim (Bool-cases (x == magic_0)) [
      | inl o ↦ record {
        at = length front;
        behind = omega arith;
        inside = omega arith;
        kept = drop_prefix front (x ∷ []) ∙ rw o;
        moves = rw (some_byte, last, o) (ap (λ k. remove_prefix d k true) (omega arith));
      }
      | inr other ↦ record {
        at = d.buffered_bytes;
        behind = omega arith;
        inside = omega arith;
        kept = rw other (drop_all d.buffered_bytes p (omega arith));
        moves = rw (some_byte, last, other);
      }
    ]
find_magic-Target d front x (y ∷ xs) (n, same) =
    let p = front ++ (x ∷ y ∷ xs) in
    let size : length p ≡ length front + (length xs + 2) =
      length-append front (x ∷ y ∷ xs) ∙ omega arith in
    let b0 : byte_at d.buffer (length front) ≡ x =
      same (length front) (omega arith)
      ∙ get_or-append front (x ∷ y ∷ xs) 0 (length front) 0 (omega arith) in
    let b1 : byte_at d.buffer (length front + 1) ≡ y =
      same (length front + 1) (omega arith)
      ∙ get_or-append front (x ∷ y ∷ xs) 1 (length front + 1) 0 (omega arith) in
    let longer = front ++ (x ∷ []) in
    let regroup : longer ++ (y ∷ xs) ≡ p = append_assoc front (x ∷ []) (y ∷ xs) in
    let next : length longer ≡ length front + 1 = length-append front (x ∷ []) in
    rw (b0, b1)
      (elim (Bool-cases (x == magic_0 && y == magic_1)) [
        | inl both ↦ rw both (record {
          at = length front;
          behind = omega arith;
          inside = omega arith;
          kept = drop_prefix front (x ∷ y ∷ xs) ∙ rw both;
          moves = refl;
        })
        | inr other ↦
            let r = find_magic-Target d longer y xs (rw regroup n, rw regroup same) in
            rw other (record {
              at = r.at;
              behind = omega (arith, r.behind);
              inside = rw regroup at r.inside;
              kept = ap (drop r.at) (sym regroup) ∙ r.kept ∙ rw other;
              moves =
                  ap (λ k. resync_at d (find_magic d.buffer (length xs) k)) (sym next) ∙ r.moves;
            })
      ])

module _ (d : StreamDecoder) (v : IsValid d) (two : 2 ≤ d.buffered_bytes) where
  shown :
      (p : Bytes)
      → p ≡ contents d
      → Target d (take 1 p) (drop 1 p) (find_magic d.buffer (length p - 2) 1)
  shown [] e = absurd (omega (arith, ap length e, length-contents d v))
  shown (a ∷ []) e = absurd (omega (arith, ap length e, length-contents d v))
  shown (a ∷ b ∷ r) e =
      let n : d.buffered_bytes ≡ length (a ∷ b ∷ r) =
        sym (length-contents d v) ∙ ap length (sym e) in
      let same : (i : ℕ) → i < length (a ∷ b ∷ r) → byte_at d.buffer i ≡ byte_at (a ∷ b ∷ r) i =
        λ i h.
          sym (get_or-take d.buffered_bytes i d.buffer 0 (omega arith))
          ∙ ap (λ p. byte_at p i) (sym e) in
      let less : length (a ∷ b ∷ r) - 2 ≡ length r = omega arith in
      rw less (find_magic-Target d (a ∷ []) b r (n, same))

  -- A resynchronisation of two bytes or more drops bytes from the front, at least one and no more
  -- than there are, keeps the longest rest that a frame can begin with (without the first byte), and
  -- counts the dropped bytes as discarded.
  pub resync-Removed :
      (count : ℕ) × (0 < count)
      × (count ≤ d.buffered_bytes)
      × (drop count (contents d) ≡ resync (contents d))
      × Removed d count true (resync_after_error d)
  unfolding resync_after_error
  resync-Removed =
      let p = contents d in
      let t = shown p refl in
      let whole : take 1 p ++ drop 1 p ≡ p = take-append-drop 1 p in
      let n : length p ≡ d.buffered_bytes = length-contents d v in
      let positive : 0 < t.at = omega (arith, t.behind, length-take 1 p) in
      let inside : t.at ≤ d.buffered_bytes = omega (arith, t.inside, ap length whole) in
      let moves : resync_at d (find_magic d.buffer (d.buffered_bytes - 2) 1)
          ≡ remove_prefix d t.at true =
        ap (λ k. resync_at d (find_magic d.buffer (k - 2) 1)) (sym n) ∙ t.moves in
      (
        t.at,
        positive,
        inside,
        ap (drop t.at) (sym whole) ∙ t.kept,
        rw moves (remove_prefix-Removed d v t.at true positive inside),
      )
