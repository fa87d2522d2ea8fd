-- ===== src/Buffer/Writes.antt =====
-- What `operator<<` of a message leaves, beside another message that may share its buffer.
use gce.Prelude.{
  ℕ, ◌+◌, ◌-◌, ◌%◌, ◌^◌, ◌≤◌, ◌<◌, ◌≡◌, ◌≢◌, refl, ap, sym, subst, ◌∙◌, false, List, ◌++◌, Option,
  none, some, if◌then◌else◌, ltb, ◌>>=◌, length, length-append, arith, Bool-cases, inl, inr,
}
use gce.Message.Tags.{front}
use gce.Buffer.{
  Cell, Store, put, Place, small, large, Buffer, grown, reserve_in, reserve, fill_in, write_bytes,
}
use gce.Buffer.Holds.{put-same, Holds, Safe, Alone, put-Holds, none-other, front-len, less-Holds}

-- What `reserve` leaves: the message has its bytes, alone, and the other one has its own.
Reserves : ℕ → ℕ → Buffer → Buffer → List ℕ → List ℕ → Option (Buffer × Store) → Type 0
Reserves lim capacity m q bs cs out =
    (n : Buffer) × (g : Store) × (out ≡ some (n, g))
    × (n.write_size ≡ m.write_size)
    × (capacity ≤ n.capacity)
    × Holds lim bs n.place n.capacity n.write_size g
    × Holds lim cs q.place q.capacity q.write_size g
    × Alone n.place q.place

reserve_in-Reserves :
    (lim addr capacity : ℕ) (p : Place) (m q : Buffer) (h : Store) (bs cs : List ℕ)
    → m.place ≡ p
    → Holds lim bs p m.capacity m.write_size h
    → Holds lim cs q.place q.capacity q.write_size h
    → Safe p q.place h
    → h addr ≡ none
    → m.write_size ≤ capacity
    → Reserves lim capacity m q bs cs (reserve_in addr capacity p m h)
unfolding reserve_in Reserves
reserve_in-Reserves lim addr capacity (small bytes) m q h bs cs at (k, l, w, v) o safe free enough =
    elim (Bool-cases (ltb m.capacity capacity)) [
      | inr e ↦ (
        m,
        h,
        rw e refl,
        refl,
        ground arith,
        subst (λ z. Holds lim bs z m.capacity m.write_size h) (sym at) (k, l, w, v),
        o,
        λ x f. let f' : small bytes ≡ large x = sym at ∙ f in absurd cc,
      )
      | inl e ↦
          let other = none-other addr h lim cs q.place q.capacity q.write_size free o in
          (
            record m { place = large addr; capacity = capacity },
            put addr
                (some (record { count = 1; size = capacity; bytes = front m.write_size bytes })) h,
            rw e refl,
            refl,
            omega arith,
            (
              _,
              put-same addr _ h,
              ap (front m.write_size) k ∙ front-len m.write_size bs l,
              l,
              omega arith,
              enough,
              omega arith,
            ),
            put-Holds addr _ h lim cs q.place q.capacity q.write_size other o,
            λ x f g. other (g ∙ sym f),
          )
    ]
reserve_in-Reserves lim addr capacity (large x) m q h bs cs at (cell, e, k, l, c, w, v) o safe free
      enough =
    elim (Bool-cases (ltb 1 cell.count)) [
      | inl many ↦
          let less : Cell = record cell { count = cell.count - 1 } in
          let fresh : Cell = record {
            count = 1;
            size = capacity;
            bytes = front m.write_size cell.bytes;
          } in
          let other = none-other addr h lim cs q.place q.capacity q.write_size free o in
          (
            record m { place = large addr; capacity = capacity },
            put addr (some fresh) (put x (some less) h),
            rw (e, ◌>>=◌, many) refl,
            refl,
            omega arith,
            (
              fresh,
              put-same addr (some fresh) (put x (some less) h),
              ap (front m.write_size) k ∙ front-len m.write_size bs l,
              l,
              omega arith,
              enough,
              omega arith,
            ),
            put-Holds addr (some fresh) (put x (some less) h) lim cs q.place q.capacity q.write_size
                other
                (less-Holds x cell h lim cs q.place q.capacity q.write_size e (ground arith) o),
            λ y f g. other (g ∙ sym f),
          )
      | inr one ↦
          let bigger : Cell = record cell {
            size = if ltb cell.size capacity then capacity else cell.size;
          } in
          let other : q.place ≢ large x = λ f. (let two = safe x cell refl f e in ground arith) in
          (
            record m { capacity = capacity },
            put x (some bigger) h,
            rw (e, ◌>>=◌, one) refl,
            refl,
            omega arith,
            subst (λ z. Holds lim bs z capacity m.write_size (put x (some bigger) h)) (sym at)
                (bigger, put-same x (some bigger) h, k, l, c, enough, ground arith),
            put-Holds x (some bigger) h lim cs q.place q.capacity q.write_size other o,
            λ y f g. other (g ∙ sym f ∙ at),
          )
    ]

added-Holds :
    (bs added bytes : List ℕ) (n : ℕ)
    → front n bytes ≡ bs
    → n ≡ length bs
    → (front (n + length added) (front n bytes ++ added) ≡ bs ++ added)
      × (n + length added ≡ length (bs ++ added))
added-Holds bs added bytes n k l =
    let total = length-append bs added in
    let same : n + length added ≡ length (bs ++ added) = omega arith in
    (
      ap (λ z. front (n + length added) (z ++ added)) k
          ∙ front-len (n + length added) (bs ++ added) same,
      same,
    )

-- What `operator<<` leaves: the message has the bytes that were added, and the other one has its own.
abbrev pub Writes : ℕ → List ℕ → Buffer → List ℕ → List ℕ → Option (Buffer × Store) → Type 0
Writes lim added q bs cs out =
    (n : Buffer) × (g : Store) × (out ≡ some (n, g))
    × Holds lim (bs ++ added) n.place n.capacity n.write_size g
    × Holds lim cs q.place q.capacity q.write_size g

Fills : ℕ → List ℕ → Buffer → Buffer → List ℕ → List ℕ → Option (Buffer × Store) → Type 0
Fills lim added m q bs cs out =
    (n : Buffer) × (g : Store) × (out ≡ some (n, g))
    × (n.write_size ≡ m.write_size)
    × (n.capacity ≡ m.capacity)
    × Holds lim (bs ++ added) n.place n.capacity (m.write_size + length added) g
    × Holds lim cs q.place q.capacity q.write_size g

fill_in-Fills :
    (lim : ℕ) (added : List ℕ) (p : Place) (m q : Buffer) (h : Store) (bs cs : List ℕ)
    → m.place ≡ p
    → Holds lim bs p m.capacity m.write_size h
    → Holds lim cs q.place q.capacity q.write_size h
    → Alone p q.place
    → m.write_size + length added ≤ m.capacity
    → Fills lim added m q bs cs (fill_in p added m h)
unfolding fill_in Fills
fill_in-Fills lim added (small bytes) m q h bs cs at (k, l, w, v) o alone fits =
    let (k', l') = added-Holds bs added bytes m.write_size k l in
    (
      record m { place = small (front m.write_size bytes ++ added) },
      h,
      refl,
      refl,
      refl,
      (k', l', fits, v),
      o,
    )
fill_in-Fills lim added (large x) m q h bs cs at (cell, e, k, l, c, w, v) o alone fits =
    let fuller : Cell = record cell { bytes = front m.write_size cell.bytes ++ added } in
    let (k', l') = added-Holds bs added cell.bytes m.write_size k l in
    (
      m,
      put x (some fuller) h,
      rw (e, ◌>>=◌) refl,
      refl,
      refl,
      subst
          (λ z.
            Holds lim (bs ++ added) z m.capacity (m.write_size + length added)
              (put x (some fuller) h))
          (sym at) (fuller, put-same x (some fuller) h, k', l', c, fits, v),
      put-Holds x (some fuller) h lim cs q.place q.capacity q.write_size (alone x refl) o,
    )

grown-enough :
    (min_grow size : ℕ) (m : Buffer)
    → min_grow < 2 ^ 62
    → size < 2 ^ 62
    → m.capacity < 2 ^ 62
    → m.write_size < 2 ^ 62
    → (m.write_size + size) % 2 ^ 64 ≤ grown min_grow size m
unfolding grown
grown-enough min_grow size m a b c d = ground arith

pub write_bytes-Writes :
    (lim min_grow addr : ℕ) (added : List ℕ) (m q : Buffer) (h : Store) (bs cs : List ℕ)
    → min_grow < 2 ^ 62
    → length added < 2 ^ 62
    → m.capacity < 2 ^ 62
    → m.write_size < 2 ^ 62
    → Holds lim bs m.place m.capacity m.write_size h
    → Holds lim cs q.place q.capacity q.write_size h
    → Safe m.place q.place h
    → h addr ≡ none
    → Writes lim added q bs cs (write_bytes min_grow addr added m h)
unfolding write_bytes reserve Reserves Fills
write_bytes-Writes lim min_grow addr added m q h bs cs a b c d k o safe free =
    let top = grown min_grow (length added) m in
    let enough = grown-enough min_grow (length added) m a b c d in
    let (n, g, e, w, room, k', o', alone) =
      reserve_in-Reserves lim addr top m.place m q h bs cs refl k o safe free (omega arith) in
    let (r, f, e', w', same, k'', o'') =
      fill_in-Fills lim added n.place n q g bs cs refl k' o' alone (ground arith) in
    let end : (r.write_size + length added) % 2 ^ 64 ≡ n.write_size + length added = ground arith in
    let fits : ltb r.capacity (n.write_size + length added) ≡ false = ground arith in
    (
      record r { write_size = n.write_size + length added },
      f,
      rw (e, ◌>>=◌, e', end, fits) refl,
      k'',
      o'',
    )
