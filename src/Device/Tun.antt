-- ===== src/Device/Tun.antt =====
-- pkg/device/tun.go: Read, which hands out the packets of a batch one by one, and WriteRaw. The device
-- of the WireGuard library is a parameter: what a read of it leaves in the buffers.
pub mod Reads
use ptun.Base.{
  ℕ, suc, zero, ◌≤◌, ◌≡◌, refl, ap, List, [], ◌∷◌, ◌++◌, map, Option, none, some, Result, ok, err,
  panics, ◌>>=◌, length, take_of_length-le, length-take, take, drop, get_elem?, replicate, arith,
  leb, if◌then◌else◌, le→leb,
}

abbrev pub fix_header_length : ℕ
fix_header_length = 16

pub record Tun : Type 0 where
  pub read_bufs : List (List ℕ)
  pub buf_sizes : List ℕ
  pub count : ℕ
  pub current : ℕ

-- What a read of the device leaves: the buffers, the sizes and the number of packets.
pub record Batch : Type 0 where
  pub bufs : List (List ℕ)
  pub sizes : List ℕ
  pub packets : ℕ

-- What Read returns: the caller's buffer and the length.
pub record ReadResult : Type 0 where
  pub buffer : List ℕ
  pub n : ℕ

pub data Error : Type 0 where
  read_failed : Error

-- copy: as much as fits, the rest of the destination stays.
abbrev pub copy : List ℕ → List ℕ → List ℕ
copy dst src = take (length dst) src ++ drop (length src) dst

abbrev pub index : {A : Type 0} → List A → ℕ → Result Error A
index xs i = elim (get_elem? xs i) [ some x ↦ ok x | none ↦ panics ]

-- A slice up to n.
abbrev pub slice_to : List ℕ → ℕ → Result Error (List ℕ)
slice_to xs n = if leb n (length xs) then ok (take n xs) else panics

abbrev pub fill : Option Batch → Tun → Result Error Tun
fill dev t = elim (t.count) [
  | suc n ↦ ok t
  | zero ↦ elim dev [
    | none ↦ err read_failed
    | some b ↦
        ok (record {
          read_bufs = b.bufs;
          buf_sizes = b.sizes;
          count = b.packets;
          current = t.current;
        })
  ]
]

abbrev pub advance : Tun → Tun
advance t =
    if leb (t.count) (suc (t.current))
    then record { read_bufs = t.read_bufs; buf_sizes = t.buf_sizes; count = 0; current = 0 }
    else record {
      read_bufs = t.read_bufs;
      buf_sizes = t.buf_sizes;
      count = t.count;
      current = suc (t.current);
    }

-- Read into the caller's buffer; `dev` is what the device gives if it is asked.
unfoldable pub read : Option Batch → List ℕ → Tun → Result Error (Tun × ReadResult)
read dev dest t = fill dev t >>= λ t1. index (t1.buf_sizes) (t1.current) >>= λ size.
    index (t1.read_bufs) (t1.current) >>= λ buf. slice_to buf size >>= λ packet.
    index ((advance t1).buf_sizes) ((advance t1).current) >>= λ n.
    ok (advance t1, record { buffer = copy dest packet; n = n })

-- WriteRaw: what is passed to the device, with its offset.
pub write_raw : List (List ℕ) → List (List ℕ) × ℕ
write_raw dest = (map (λ d. replicate fix_header_length 0 ++ d) dest, fix_header_length)

copy_fits :
    (dest src : List ℕ) (n : ℕ)
    → length src ≡ n
    → n ≤ length dest
    → copy dest src ≡ src ++ drop n dest
copy_fits dest src n e k = rw (take_of_length-le (length dest) src (omega (arith, e, k)), e) refl

-- A device that gives one packet at a time, with nothing left of an earlier batch: Read copies the
-- packet to the front of a buffer that is long enough, returns its length, and asks the device again
-- at the next call.
pub read_single :
    (buf dest : List ℕ) (size : ℕ) (t : Tun)
    → t.count ≡ 0
    → t.current ≡ 0
    → size ≤ length buf
    → size ≤ length dest
    → read (some (record { bufs = buf ∷ []; sizes = size ∷ []; packets = 1 })) dest t
      ≡ ok (
        record { read_bufs = buf ∷ []; buf_sizes = size ∷ []; count = 0; current = 0 },
        record { buffer = take size buf ++ drop size dest; n = size },
      )
unfolding read
read_single buf dest size t e0 e1 h k =
    rw (e0, e1, le→leb _ _ h)
      (ap
        (λ b. ok (
          record { read_bufs = buf ∷ []; buf_sizes = size ∷ []; count = 0; current = 0 },
          record { buffer = b; n = size },
        ))
        (copy_fits dest (take size buf) size (omega (arith, length-take size buf)) k))

-- With two packets in a new batch, the first Read copies the first packet and returns the length of
-- the second.
pub read_batch :
    (buf0 buf1 dest : List ℕ) (size0 size1 : ℕ) (t : Tun)
    → t.count ≡ 0
    → t.current ≡ 0
    → size0 ≤ length buf0
    → read
        (some (record { bufs = buf0 ∷ buf1 ∷ []; sizes = size0 ∷ size1 ∷ []; packets = 2 }))
        dest
        t
      ≡ ok (
        record {
          read_bufs = buf0 ∷ buf1 ∷ [];
          buf_sizes = size0 ∷ size1 ∷ [];
          count = 2;
          current = 1;
        },
        record { buffer = copy dest (take size0 buf0); n = size1 },
      )
unfolding read
read_batch buf0 buf1 dest size0 size1 t e0 e1 h = rw (e0, e1, le→leb _ _ h) refl

drop-replicate : (n : ℕ) (d : List ℕ) → drop n (replicate n 0 ++ d) ≡ d
drop-replicate zero d = refl
drop-replicate (suc n) d = drop-replicate n d

-- Behind the offset that WriteRaw gives, the device finds the packets as they are.
pub write_raw-drop :
    (dest : List (List ℕ)) → map (drop ((write_raw dest).1)) ((write_raw dest).0) ≡ dest
unfolding write_raw
write_raw-drop [] = refl
write_raw-drop (d ∷ dest) = ap (λ l. d ∷ l) (write_raw-drop dest)
