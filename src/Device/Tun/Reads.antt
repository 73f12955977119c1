-- ===== src/Device/Tun/Reads.antt =====
-- Read of pkg/device/tun.go over a whole batch of the device.
use ptun.Base.{
  ℕ, zero, suc, ◌≤◌, ◌≡◌, refl, ap, sym, ◌∙◌, true, false, List, [], ◌∷◌, ◌++◌, map, Option, some,
  Result, ok, ◌>>=◌, length, length-append, take, get_elem?, leb, All, arith, if◌then◌else◌, le→leb,
  append_assoc, Bool-cases, inl, inr,
}
use mathlib.Core.Path.{subst}
use mathlib.Core.Option.{some-injective}
use ptun.Device.Tun.{Tun, Batch, ReadResult, Error, copy, index, read}

-- A buffer, and the size of the packet at its front.
abbrev pub Item : Type 0
Item = List ℕ × ℕ

abbrev pub Fits : Item → Type 0
Fits item = item.1 ≤ length item.0

-- A batch of the device: the packets in the first buffers, and the buffers that it left as they were.
abbrev pub batch : List Item → List Item → Batch
batch items spare = record {
  bufs = map (λ i. i.0) (items ++ spare);
  sizes = map (λ i. i.1) (items ++ spare);
  packets = length items;
}

-- The device's state within a batch, and after its last packet.
abbrev pub within : List Item → List Item → ℕ → Tun
within items spare i = record {
  read_bufs = map (λ i. i.0) (items ++ spare);
  buf_sizes = map (λ i. i.1) (items ++ spare);
  count = length items;
  current = i;
}

abbrev pub finished : List Item → List Item → Tun
finished items spare = record {
  read_bufs = map (λ i. i.0) (items ++ spare);
  buf_sizes = map (λ i. i.1) (items ++ spare);
  count = 0;
  current = 0;
}

-- As many Reads as given, each with a slice that has the same contents.
unfoldable pub read_all : ℕ → Option Batch → List ℕ → Tun → Result Error (Tun × List ReadResult)
read_all zero dev dest t = ok (t, [])
read_all (suc n) dev dest t =
    read dev dest t >>= λ r. read_all n dev dest r.0 >>= λ rs. ok (rs.0, r.1 ∷ rs.1)

-- What is returned for the packets: each with the size of the next one, the last with `first`.
abbrev pub results : List ℕ → ℕ → List Item → List ReadResult
results dest first [] = []
results dest first (i ∷ []) = record { buffer = copy dest (take i.1 i.0); n = first } ∷ []
results dest first (i ∷ j ∷ items) =
    record { buffer = copy dest (take i.1 i.0); n = j.1 } ∷ results dest first (j ∷ items)

get_elem?-append_length :
    {A : Type 0} (before : List A) (a : A) (more : List A)
    → get_elem? (before ++ a ∷ more) (length before) ≡ some a
get_elem?-append_length [] a more = refl
get_elem?-append_length (b ∷ before) a more = get_elem?-append_length before a more

index-map :
    {A : Type 0} (f : Item → A) (items : List Item) (i : ℕ) (item : Item)
    → get_elem? items i ≡ some item
    → index (map f items) i ≡ ok (f item)
index-map f [] i item e = cc e
index-map f (x ∷ items) zero item e = ground (arith, e)
index-map f (x ∷ items) (suc i) item e = index-map f items i item e

placed :
    (x : Item) (xs spare before : List Item) (item : Item) (rest : List Item)
    → x ∷ xs ≡ before ++ item ∷ rest
    → get_elem? (x ∷ (xs ++ spare)) (length before) ≡ some item
placed x xs spare before item rest whole =
    subst (λ l. get_elem? l (length before) ≡ some item)
      (sym (ap (λ l. l ++ spare) whole ∙ append_assoc before (item ∷ rest) spare))
      (get_elem?-append_length before item (rest ++ spare))

-- One Read within a batch that is not empty.
read-within :
    (dev : Option Batch) (dest : List ℕ) (x : Item) (xs spare : List Item) (i : ℕ)
    (item next : Item)
    → get_elem? (x ∷ (xs ++ spare)) i ≡ some item
    → Fits item
    → get_elem? (x ∷ (xs ++ spare)) (if leb (length (x ∷ xs)) (suc i) then 0 else suc i) ≡ some next
    → read dev dest (within (x ∷ xs) spare i)
      ≡ ok (
        (if leb (length (x ∷ xs)) (suc i)
            then finished (x ∷ xs) spare
            else within (x ∷ xs) spare (suc i)),
        record { buffer = copy dest (take item.1 item.0); n = next.1 },
      )
unfolding read
read-within dev dest x xs spare i item next e fits f =
    rw
      (
        index-map (λ i. i.1) (x ∷ (xs ++ spare)) i item e,
        index-map (λ i. i.0) (x ∷ (xs ++ spare)) i item e,
        le→leb _ _ fits,
      )
      (elim (Bool-cases (leb (length (x ∷ xs)) (suc i))) [
        | inl last ↦ rw last (
            ap
              (λ n. ok (
                finished (x ∷ xs) spare,
                record { buffer = copy dest (take item.1 item.0); n = n.1 },
              ))
              (some-injective x next (rw last at f)))
        | inr more ↦
            rw more (rw (index-map (λ i. i.1) (x ∷ (xs ++ spare)) (suc i) next (rw more at f)) refl)
      ])

read_last :
    (dev : Option Batch) (dest : List ℕ) (x : Item) (xs spare : List Item) (i : ℕ) (item : Item)
    → get_elem? (x ∷ (xs ++ spare)) i ≡ some item
    → Fits item
    → leb (length (x ∷ xs)) (suc i) ≡ true
    → read dev dest (within (x ∷ xs) spare i)
      ≡ ok (finished (x ∷ xs) spare, record { buffer = copy dest (take item.1 item.0); n = x.1 })
read_last dev dest x xs spare i item e fits last =
    rw last at (read-within dev dest x xs spare i item x e fits (rw last refl))

read_next :
    (dev : Option Batch) (dest : List ℕ) (x : Item) (xs spare : List Item) (i : ℕ)
    (item next : Item)
    → get_elem? (x ∷ (xs ++ spare)) i ≡ some item
    → Fits item
    → leb (length (x ∷ xs)) (suc i) ≡ false
    → get_elem? (x ∷ (xs ++ spare)) (suc i) ≡ some next
    → read dev dest (within (x ∷ xs) spare i)
      ≡ ok (
        within (x ∷ xs) spare (suc i),
        record { buffer = copy dest (take item.1 item.0); n = next.1 },
      )
read_next dev dest x xs spare i item next e fits more f =
    rw more at (read-within dev dest x xs spare i item next e fits (rw more f))

-- The Reads from a place in the batch on.
read_all-within :
    (dev : Option Batch) (dest : List ℕ) (x : Item) (xs spare before : List Item) (item : Item)
    (rest : List Item)
    → x ∷ xs ≡ before ++ item ∷ rest
    → All Fits (item ∷ rest)
    → read_all (length (item ∷ rest)) dev dest (within (x ∷ xs) spare (length before))
      ≡ ok (finished (x ∷ xs) spare, results dest x.1 (item ∷ rest))
unfolding read_all
read_all-within dev dest x xs spare before item [] whole (fits, _) =
    let here : get_elem? (x ∷ (xs ++ spare)) (length before) ≡ some item =
      placed x xs spare before item [] whole in
    let last : leb (length (x ∷ xs)) (suc (length before)) ≡ true =
      le→leb _ _ (omega (arith, ap length whole, length-append before (item ∷ []))) in
    rw (read_last dev dest x xs spare (length before) item here fits last) refl
read_all-within dev dest x xs spare before item (next ∷ rest) whole (fits, later) =
    let here : get_elem? (x ∷ (xs ++ spare)) (length before) ≡ some item =
      placed x xs spare before item (next ∷ rest) whole in
    let after : x ∷ xs ≡ (before ++ item ∷ []) ++ next ∷ rest =
      whole ∙ sym (append_assoc before (item ∷ []) (next ∷ rest)) in
    let place : length (before ++ item ∷ []) ≡ suc (length before) =
      omega (arith, length-append before (item ∷ [])) in
    let there : get_elem? (x ∷ (xs ++ spare)) (suc (length before)) ≡ some next =
      subst (λ k. get_elem? (x ∷ (xs ++ spare)) k ≡ some next) place
        (placed x xs spare (before ++ item ∷ []) next rest after) in
    let more : leb (length (x ∷ xs)) (suc (length before)) ≡ false =
      ground (arith, ap length whole, length-append before (item ∷ next ∷ rest)) in
    rw (read_next dev dest x xs spare (length before) item next here fits more there) (
      rw
        (subst
          (λ k.
            read_all (length (next ∷ rest)) dev dest (within (x ∷ xs) spare k)
            ≡ ok (finished (x ∷ xs) spare, results dest x.1 (next ∷ rest)))
          place (read_all-within dev dest x xs spare (before ++ item ∷ []) next rest after later))
        refl)

read-fresh :
    (dest : List ℕ) (x : Item) (xs spare : List Item) (t : Tun)
    → t.count ≡ 0
    → t.current ≡ 0
    → read (some (batch (x ∷ xs) spare)) dest t
      ≡ read (some (batch (x ∷ xs) spare)) dest (within (x ∷ xs) spare 0)
unfolding read
read-fresh dest x xs spare t e0 e1 = rw (e0, e1) refl

-- The Reads of a new batch, which has a packet in each of any number of the device's first buffers and
-- leaves the other buffers as they were: if the sizes of the packets lie within their buffers, each
-- packet is given once, in the batch's order, as far as it fits the slice, and nothing of the other
-- buffers; but each Read returns the size of the packet after its own, and the last one that of the first
-- packet. Then the device is asked again.
pub read_all-batch :
    (dest : List ℕ) (x : Item) (xs spare : List Item) (t : Tun)
    → t.count ≡ 0
    → t.current ≡ 0
    → All Fits (x ∷ xs)
    → read_all (length (x ∷ xs)) (some (batch (x ∷ xs) spare)) dest t
      ≡ ok (finished (x ∷ xs) spare, results dest x.1 (x ∷ xs))
unfolding read_all
read_all-batch dest x xs spare t e0 e1 fits =
    ap
      (λ r. r >>= λ r.
        read_all (length xs) (some (batch (x ∷ xs) spare)) dest r.0 >>= λ rs. ok (rs.0, r.1 ∷ rs.1))
      (read-fresh dest x xs spare t e0 e1)
    ∙ read_all-within (some (batch (x ∷ xs) spare)) dest x xs spare [] x xs refl fits
