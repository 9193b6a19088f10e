-- ===== src/Broker/Subscriber/Report.antt =====
-- A message of Tema_2/server.cpp as Tema_2/subscriber.cpp reads it.
use communication_protocols.Base.{
  ℕ, zero, suc, ◌+◌, ◌*◌, ◌/◌, ◌%◌, ◌<◌, ◌≡◌, refl, ap, ◌∙◌, sym, true, false, Bool-cases, inl, inr,
  some, List, [], ◌∷◌, ◌++◌, arith, ltb, ◌==◌, append-nil, length, length-append, get_or, drop,
}
use communication_protocols.Broker.State.{TcpMsg, padded, tcp_msg}
use communication_protocols.CString.{c_text}
use communication_protocols.Broker.Subscriber.{
  FloatText, going, prints, msg_size, udp_at, type_at, wire, byte_at, text_at, decode, type_name,
  report, on_received, ◌>>=◌,
}

pub length-padded : (n : ℕ) (bs : List ℕ) → length (padded n bs) ≡ n
unfolding padded
length-padded zero bs = refl
length-padded (suc n) [] = ap suc (length-padded n [])
length-padded (suc n) (b ∷ bs) = ap suc (length-padded n bs)

padded-whole : (n : ℕ) (bs : List ℕ) → length bs ≡ n → padded n bs ≡ bs
unfolding padded
padded-whole zero [] e = refl
padded-whole zero (b ∷ bs) e = absurd (omega arith)
padded-whole (suc n) [] e = absurd (omega arith)
padded-whole (suc n) (b ∷ bs) e = ap (λ l. b ∷ l) (padded-whole n bs (omega arith))

-- A string that ends in the part that was copied is read as it was, whatever follows.
pub c_text-padded :
    (n : ℕ) (bs rest : List ℕ) → length (c_text bs) < n → c_text (padded n bs ++ rest) ≡ c_text bs
unfolding c_text padded
c_text-padded zero bs rest h = absurd (omega arith)
c_text-padded (suc n) [] rest h = refl
c_text-padded (suc n) (b ∷ bs) rest h = elim (Bool-cases (b == 0)) [
  | inl e ↦ rw e
  | inr e ↦ let k : length (c_text bs) < n = ground arith in rw (e, c_text-padded n bs rest k)
]

drop-append : (n k : ℕ) (xs ys : List ℕ) → length xs ≡ n → drop (n + k) (xs ++ ys) ≡ drop k ys
drop-append zero k [] ys e = let z : 0 + k ≡ k = omega arith in rw z
drop-append zero k (x ∷ xs) ys e = absurd (omega arith)
drop-append (suc n) k [] ys e = absurd (omega arith)
drop-append (suc n) k (x ∷ xs) ys e =
    let z : suc n + k ≡ suc (n + k) = omega arith in rw z (drop-append n k xs ys (omega arith))

get_or-append :
    (n k d : ℕ) (xs ys : List ℕ) → length xs ≡ n → get_or (xs ++ ys) (n + k) d ≡ get_or ys k d
get_or-append zero k d [] ys e = let z : 0 + k ≡ k = omega arith in rw z
get_or-append zero k d (x ∷ xs) ys e = absurd (omega arith)
get_or-append (suc n) k d [] ys e = absurd (omega arith)
get_or-append (suc n) k d (x ∷ xs) ys e =
    let z : suc n + k ≡ suc (n + k) = omega arith in rw z (get_or-append n k d xs ys (omega arith))

module _ (ip : List ℕ) (port : ℕ) (bytes : List ℕ) where
  abbrev msg : TcpMsg
  msg = tcp_msg ip port bytes

  abbrev udp : List ℕ
  udp = padded 1551 bytes

  wire-form : wire msg ≡ padded 16 ip ++ (port % 256 ∷ (port / 256) % 256 ∷ udp)
  unfolding wire tcp_msg
  wire-form = refl

  length-wire : length (wire msg) ≡ msg_size
  unfolding wire tcp_msg
  length-wire = omega (
    arith,
    length-append (padded 16 ip) (port % 256 ∷ (port / 256) % 256 ∷ udp),
    length-padded 16 ip,
    length-padded 1551 bytes,
  )

  filled : padded msg_size (wire msg) ≡ wire msg
  filled = padded-whole msg_size (wire msg) length-wire

  rest : List ℕ
  rest = port % 256 ∷ (port / 256) % 256 ∷ udp

  udp-read : drop udp_at (wire msg) ≡ udp
  unfolding wire tcp_msg rest
  udp-read = drop-append 16 2 (padded 16 ip) rest (length-padded 16 ip)

  port-read : port < 65536 → byte_at (wire msg) 16 + 256 * byte_at (wire msg) 17 ≡ port
  unfolding wire tcp_msg rest
  port-read small =
      let low : byte_at (padded 16 ip ++ rest) 16 ≡ port % 256 =
        get_or-append 16 0 0 (padded 16 ip) rest (length-padded 16 ip) in
      let high : byte_at (padded 16 ip ++ rest) 17 ≡ (port / 256) % 256 =
        get_or-append 16 1 0 (padded 16 ip) rest (length-padded 16 ip) in
      omega (arith, low, high)

  ip-read : length (c_text ip) < 16 → text_at (wire msg) 0 ≡ some (c_text ip)
  unfolding text_at wire tcp_msg
  ip-read short =
      let t : c_text (wire msg) ≡ c_text ip = c_text-padded 16 ip _ short in
      let room : ltb (length (c_text ip)) (length (wire msg)) ≡ true =
        let n : length (wire msg) ≡ msg_size = length-wire in ground arith in
      rw (t, room)

  topic-read : length (c_text bytes) < 1551 → text_at udp 0 ≡ some (c_text bytes)
  unfolding text_at
  topic-read short =
      let t : c_text udp ≡ c_text bytes =
        ap c_text (sym (append-nil udp)) ∙ c_text-padded 1551 bytes [] short in
      let room : ltb (length (c_text bytes)) (length udp) ≡ true =
        let n : length udp ≡ 1551 = length-padded 1551 bytes in ground arith in
      rw (t, room)

  -- What the server sends for a datagram, the client reports: the address, of less than 16 characters,
  -- and the port that the server saw, the topic under which the server looked for subscribers, the
  -- name of the type and the text that decode gives for the datagram's type and data.
  pub on_received-wire :
      (floats : FloatText)
      → length (c_text ip) < 16
      → port < 65536
      → length (c_text bytes) < 1551
      → on_received floats (wire msg) ≡ (
          decode floats udp >>= λ text. going (
            prints (report (c_text ip) port (c_text bytes) (type_name (byte_at udp type_at)) text)
            ∷ []))
  unfolding on_received
  on_received-wire floats ip_fits port_fits topic_fits =
      let some_bytes : (length (wire msg) == 0) ≡ false =
        let n : length (wire msg) ≡ msg_size = length-wire in ground arith in
      rw (
        on_received,
        some_bytes,
        filled,
        udp-read,
        ip-read ip_fits,
        topic-read topic_fits,
        port-read port_fits,
      )
