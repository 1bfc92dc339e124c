-- ===== src/Tests/Wire.antt =====
-- A connection in memory, which meets its contract, and the byte order of a little-endian host.
use raspi_cctv_tcp_server.Prelude.{
  ℕ, zero, suc, ◌+◌, ◌*◌, ◌/◌, ◌%◌, ◌^◌, ◌≤◌, ◌<◌, true, List, [], ◌∷◌, ◌++◌, Text, ◌≡◌, refl,
  arith, length, take, drop, take-drop, length-take_le, ap, sym, subst,
}
use raspi_cctv_tcp_server.Endian.{bytes_le, bytes_be}
use raspi_cctv_tcp_server.Endian.NetworkOrder.{NetContract}
use raspi_cctv_tcp_server.Server.Net.{Tls, TlsContract, Received, nothing, bytes}
use raspi_cctv_tcp_server.Server.Session.Reading.{Healthy}

-- What the client will still send, and what it was sent.
pub record Wire : Type 0 where
  pub incoming : Text
  pub sent : Text

abbrev read_from : Wire → Text → ℕ → Received × Wire
read_from c [] n = (nothing, c)
read_from c (b ∷ bs) zero = (nothing, c)
read_from c (b ∷ bs) (suc n) = (bytes b (take n bs), record c { incoming = drop n bs })

-- The four bytes of a number, turned round.
abbrev pub swap_bytes : ℕ → ℕ
swap_bytes v =
    v % 256 * 2 ^ 24 + v / 256 % 256 * 2 ^ 16 + v / 65536 % 256 * 256 + v / 16777216 % 256

abbrev pub wires : Tls
wires = record {
  Conn = Wire;
  read = λ c n. read_from c c.incoming n;
  write = λ c t. (true, record c { sent = c.sent ++ t });
  htonl = swap_bytes;
}

read_from_lem :
    (c c' : Wire) (text : Text) (n b : ℕ) (bs : List ℕ)
    → read_from c text n ≡ (bytes b bs, c')
    → (b ∷ bs ++ c'.incoming ≡ text) × (length (b ∷ bs) ≤ n) × (c'.sent ≡ c.sent)
read_from_lem c c' [] n b bs h = cc
read_from_lem c c' (x ∷ xs) zero b bs h = cc
read_from_lem c c' (x ∷ xs) (suc n) b bs h =
    let first : x ≡ b = ground arith in
    let more : take n xs ≡ bs = ground arith in
    let left : c'.incoming ≡ drop n xs = ground arith in
    let same : c'.sent ≡ c.sent = ground arith in
    (
      rw (left) (
          subst (λ u. u ∷ bs ++ drop n xs ≡ x ∷ xs) first
            (subst (λ u. x ∷ u ++ drop n xs ≡ x ∷ xs) more (ap (λ u. x ∷ u) (take-drop n xs)))),
      subst (λ u. suc (length u) ≤ suc n) more (omega (arith, length-take_le n xs)),
      same,
    )

read_from_nothing :
    (c c' : Wire) (text : Text) (n : ℕ)
    → read_from c text n ≡ (nothing, c')
    → (c'.incoming ≡ c.incoming) × (c'.sent ≡ c.sent)
read_from_nothing c c' [] n h = (ap (λ x. x.1.incoming) (sym h), ap (λ x. x.1.sent) (sym h))
read_from_nothing c c' (x ∷ xs) zero h =
    (ap (λ x. x.1.incoming) (sym h), ap (λ x. x.1.sent) (sym h))
read_from_nothing c c' (x ∷ xs) (suc n) h = cc

pub wires-TlsContract : TlsContract wires
wires-TlsContract = record {
  incoming = λ c. c.incoming;
  sent = λ c. c.sent;
  read-bytes = λ c c' n b bs h. read_from_lem c c' c.incoming n b bs h;
  read-nothing = λ c c' n h. read_from_nothing c c' c.incoming n h;
  incoming-write = λ c t. refl;
  sent-write = λ c t h. refl;
}

swap_bytes-be : (v : ℕ) → v < 2 ^ 32 → bytes_le 4 (swap_bytes v) ≡ bytes_be 4 v
unfolding bytes_le bytes_be
swap_bytes-be v h = ground arith

swap_bytes-lt : (v : ℕ) → swap_bytes v < 2 ^ 32
swap_bytes-lt v = omega arith

swap_bytes-swap_bytes : (v : ℕ) → v < 2 ^ 32 → swap_bytes (swap_bytes v) ≡ v
swap_bytes-swap_bytes v h = omega arith

pub swap_bytes-NetContract : NetContract swap_bytes swap_bytes
swap_bytes-NetContract = record {
  bytes = swap_bytes-be;
  in_range = swap_bytes-lt;
  back = swap_bytes-swap_bytes;
  back_in_range = swap_bytes-lt;
}

pub wires-incoming : (c : Wire) → wires-TlsContract.incoming c ≡ c.incoming
unfolding wires-TlsContract
wires-incoming c = refl

read_from-empty :
    (c c' : Wire) (text : Text) (n : ℕ) → 0 < n → read_from c text n ≡ (nothing, c') → text ≡ []
read_from-empty c c' [] n some_room h = refl
read_from-empty c c' (x ∷ xs) zero some_room h = elim some_room [ ]
read_from-empty c c' (x ∷ xs) (suc n) some_room h = cc

pub wires-Healthy : Healthy wires wires-TlsContract
unfolding wires-TlsContract
wires-Healthy = record {
  reads = λ c c' n some_room h. read_from-empty c c' c.incoming n some_room h;
  writes = λ c t. refl;
}
