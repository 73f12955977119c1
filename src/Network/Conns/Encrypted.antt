-- ===== src/Network/Conns/Encrypted.antt =====
-- pkg/network/cypto.go. The library's cipher is a parameter.
use ptun.Base.{
  ℕ, ◌≡◌, refl, sym, ap, ◌∙◌, append-nil, append_assoc, List, [], ◌∷◌, ◌++◌, Option, none, some,
}
use mathlib.Core.Option.{some-injective}
use mathlib.Core.Path.{subst}
use ptun.Network.Conns.{Conn}

-- The library's Writer and Reader at a key: NewWriter may fail.
pub record Cipher (Key Encoder Decoder : Type 0) : Type 0 where
  pub new_writer : Key → Option Encoder
  pub new_reader : Key → Decoder
  pub encrypt : Encoder → List ℕ → List ℕ × Encoder
  pub decrypt : Decoder → List ℕ → List ℕ × Decoder

pub record EncryptedConn (Encoder Decoder : Type 0) : Type 0 where
  pub conn : Conn
  pub writer : Encoder
  pub reader : Decoder

module _ {Key Encoder Decoder : Type 0} (cipher : Cipher Key Encoder Decoder) where
  abbrev pub crypto_of : Conn → Decoder → Option Encoder → Option (EncryptedConn Encoder Decoder)
  crypto_of conn reader none = none
  crypto_of conn reader (some writer) =
      some (record { conn = conn; writer = writer; reader = reader })

  -- NewEncyptedConn with NewCryptoReadWriter; `none` is an error.
  unfoldable pub new_encrypted_conn : Conn → Key → Option (EncryptedConn Encoder Decoder)
  new_encrypted_conn conn key = crypto_of conn (cipher.new_reader key) (cipher.new_writer key)

  unfoldable pub write : List ℕ → EncryptedConn Encoder Decoder → EncryptedConn Encoder Decoder
  write b c =
      let (sealed, writer) = cipher.encrypt c.writer b in
      record c {
        conn = record c.conn { outgoing = c.conn.outgoing ++ sealed ∷ [] };
        writer = writer;
      }

  abbrev pub read_chunk :
      EncryptedConn Encoder Decoder
      → List (List ℕ)
      → Option (List ℕ × EncryptedConn Encoder Decoder)
  read_chunk c [] = none
  read_chunk c (chunk ∷ rest) =
      let (b, reader) = cipher.decrypt c.reader chunk in
      some
        (b, record { conn = record c.conn { incoming = rest }; writer = c.writer; reader = reader })

  -- Read of one chunk, into a slice that holds it; with none there it waits.
  unfoldable pub read :
      EncryptedConn Encoder Decoder → Option (List ℕ × EncryptedConn Encoder Decoder)
  read c = read_chunk c c.conn.incoming

  -- The library's law: a Reader that is paired with a Writer gives back what the Writer made, and stays
  -- paired with it.
  module _ (IsPaired : Encoder → Decoder → Type 0) where
    abbrev pub Reads : EncryptedConn Encoder Decoder → List (List ℕ) → Type 0
    Reads c [] = c.conn.incoming ≡ []
    Reads c (p ∷ ps) =
        (next : EncryptedConn Encoder Decoder) × (read c ≡ some (p, next)) × Reads next ps

    abbrev pub write_all :
        List (List ℕ) → EncryptedConn Encoder Decoder → EncryptedConn Encoder Decoder
    write_all [] c = c
    write_all (p ∷ ps) c = write_all ps (write p c)

    -- What the writer makes of some payloads, chunk by chunk.
    abbrev pub sealed : Encoder → List (List ℕ) → List (List ℕ)
    sealed e [] = []
    sealed e (p ∷ ps) = (cipher.encrypt e p).0 ∷ sealed (cipher.encrypt e p).1 ps

    write_all-outgoing :
        (ps : List (List ℕ)) (c : EncryptedConn Encoder Decoder)
        → (write_all ps c).conn.outgoing ≡ c.conn.outgoing ++ sealed c.writer ps
    unfolding write
    write_all-outgoing [] c = sym (append-nil c.conn.outgoing)
    write_all-outgoing (p ∷ ps) c =
        write_all-outgoing ps (write p c)
        ∙ append_assoc c.conn.outgoing ((cipher.encrypt c.writer p).0 ∷ []) _

    sealed-Reads :
        (ps : List (List ℕ)) (e : Encoder) (c : EncryptedConn Encoder Decoder)
        → ((e1 : Encoder) (d1 : Decoder) (p : List ℕ)
            → IsPaired e1 d1
            → ((cipher.decrypt d1 (cipher.encrypt e1 p).0).0 ≡ p)
              × IsPaired (cipher.encrypt e1 p).1 (cipher.decrypt d1 (cipher.encrypt e1 p).0).1)
        → IsPaired e c.reader
        → c.conn.incoming ≡ sealed e ps
        → Reads c ps
    unfolding read
    sealed-Reads [] e c law paired at_c = at_c
    sealed-Reads (p ∷ ps) e c law paired at_c =
        let chunk = (cipher.encrypt e p).0 in
        let next : EncryptedConn Encoder Decoder = record {
          conn = record c.conn { incoming = sealed (cipher.encrypt e p).1 ps };
          writer = c.writer;
          reader = (cipher.decrypt c.reader chunk).1;
        } in
        (
          next,
          ap (read_chunk c) at_c ∙ ap (λ b. some (b, next)) (law e c.reader p paired).0,
          sealed-Reads ps (cipher.encrypt e p).1 next law (law e c.reader p paired).1 refl,
        )

    made_ok :
        (conn : Conn) (reader : Decoder) (o : Option Encoder) (c : EncryptedConn Encoder Decoder)
        → crypto_of conn reader o ≡ some c
        → (o ≡ some c.writer) × (conn ≡ c.conn) × (reader ≡ c.reader)
    made_ok conn reader none c e = cc e
    made_ok conn reader (some w) c e =
        let same = some-injective _ _ e in
        (ap (λ x. some x.writer) same, ap (λ x. x.conn) same, ap (λ x. x.reader) same)

    -- Two ends with one key, of connections that carry chunks whole and in order: the Reads at one end
    -- give the payloads that were written at the other, in their order, and nothing more.
    pub write_all-Reads :
        (key : Key) (a b : Conn) (here there : EncryptedConn Encoder Decoder) (ps : List (List ℕ))
        → ((e : Encoder) (d : Decoder) (p : List ℕ)
            → IsPaired e d
            → ((cipher.decrypt d (cipher.encrypt e p).0).0 ≡ p)
              × IsPaired (cipher.encrypt e p).1 (cipher.decrypt d (cipher.encrypt e p).0).1)
        → ((e : Encoder) → cipher.new_writer key ≡ some e → IsPaired e (cipher.new_reader key))
        → new_encrypted_conn a key ≡ some here
        → new_encrypted_conn b key ≡ some there
        → a.outgoing ≡ []
        → Reads
            (record there { conn = record b { incoming = (write_all ps here).conn.outgoing } })
            ps
    unfolding new_encrypted_conn
    write_all-Reads key a b here there ps law pairs made_here made_there fresh =
        let mine = made_ok a (cipher.new_reader key) (cipher.new_writer key) here made_here in
        let theirs = made_ok b (cipher.new_reader key) (cipher.new_writer key) there made_there in
        sealed-Reads ps here.writer _ law
          (subst (λ d. IsPaired here.writer d) theirs.2 (pairs here.writer mine.0))
          (write_all-outgoing ps here
            ∙ ap (λ xs. xs ++ sealed here.writer ps) (ap (λ x. x.outgoing) (sym mine.1) ∙ fresh))
