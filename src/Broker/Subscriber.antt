-- ===== src/Broker/Subscriber.antt =====
-- The client of Tema_2/subscriber.cpp: what it does with each line that is typed and with each message
-- that it receives. The bytes of a recv are a parameter. So are the texts that printf gives for the
-- floating-point numbers, which the decoding divides.
pub mod Decode
pub mod Report
use communication_protocols.Base.{
  ℕ, zero, suc, ◌+◌, ◌*◌, ◌/◌, ◌%◌, ◌^◌, Bool, true, false, Option, none, some, List, [], ◌∷◌, ◌++◌,
  ltb, ◌==◌, if◌then◌else◌, length, get_or, drop, codes,
}
use communication_protocols.CString.{same, atoi, strtok, decimal, c_text}
use communication_protocols.Broker.State.{TcpMsg, buflen, padded}

-- "%.2f" of a number divided by 100, as floats, and "%.8g" of a number divided by a power of ten, as
-- doubles.
pub record FloatText : Type 0 where
  pub short_real : ℕ → List ℕ
  pub float : (n power : ℕ) → List ℕ

pub data Input : Type 0 where
  typed : (buff : List ℕ) → Input
  received : (bytes : List ℕ) → Input
  failed : Input

pub data Reply : Type 0 where
  sends : List ℕ → Reply
  prints : List ℕ → Reply

-- `going` goes on, `ended` leaves the loop, `died` is DIE, and `fault` is undefined behaviour.
pub data Result : Type 0 where
  going : List Reply → Result
  ended : List Reply → Result
  died fault : Result

-- sizeof(struct tcp_msg_to_send), the offset of msg_udp in it, and those of type and data in msg_udp
abbrev pub msg_size : ℕ
msg_size = 1569

abbrev pub udp_at : ℕ
udp_at = 18

abbrev pub type_at : ℕ
type_at = 50

abbrev pub data_at : ℕ
data_at = 51

-- The bytes of the struct that the server sends, on a little-endian host.
unfoldable pub wire : TcpMsg → List ℕ
unfolding padded
wire m = padded 16 m.udp_cl_ip ++ (m.udp_cl_port % 256 ∷ (m.udp_cl_port / 256) % 256 ∷ m.msg_udp)

abbrev pub byte_at : List ℕ → ℕ → ℕ
byte_at m i = get_or m i 0

-- ntohl and ntohs of the bytes at an offset
abbrev pub long_at : List ℕ → ℕ → ℕ
long_at m i =
    16777216 * byte_at m i + 65536 * byte_at m (i + 1) + 256 * byte_at m (i + 2) + byte_at m (i + 3)

abbrev pub short_at : List ℕ → ℕ → ℕ
short_at m i = 256 * byte_at m i + byte_at m (i + 1)

-- The string at an offset; without a terminator it is read behind the struct.
unfoldable pub text_at : List ℕ → ℕ → Option (List ℕ)
unfolding c_text
text_at m i =
    if ltb (length (c_text (drop i m))) (length (drop i m)) then some (c_text (drop i m)) else none

abbrev pub signed : ℕ → List ℕ → List ℕ
signed sign text = if sign == 1 then b'-' ∷ text else text

unfoldable pub decode : FloatText → List ℕ → Option (List ℕ)
unfolding text_at
decode floats m =
    if byte_at m type_at == 0
    then some (signed (byte_at m data_at) (decimal (long_at m (data_at + 1))))
    else if byte_at m type_at == 1
    then some (floats.short_real (short_at m data_at))
    else if byte_at m type_at == 2
    then some (
        signed (byte_at m data_at)
          (floats.float (long_at m (data_at + 1)) (byte_at m (data_at + 5))))
    else text_at m data_at

unfoldable pub type_name : ℕ → List ℕ
type_name type =
    if type == 0
    then codes "INT"
    else if type == 1
    then codes "SHORT_REAL"
    else if type == 2
    then codes "FLOAT"
    else codes "STRING"

-- "%s:%d - %s - %s - %s\n"
abbrev pub report : (ip : List ℕ) (port : ℕ) (topic type text : List ℕ) → List ℕ
report ip port topic type text =
    ip
    ++ (codes ":"
        ++ (decimal port
            ++ (codes " - "
                ++ (topic ++ (codes " - " ++ (type ++ (codes " - " ++ (text ++ codes "\n"))))))))

infixl 5 ◌>>=◌
abbrev pub ◌>>=◌ : {A : Type 0} → Option A → (A → Result) → Result
none >>= f = fault
some a >>= f = f a

-- The struct is filled with 0 before the recv; no byte is received once the connection is closed.
unfoldable pub on_received : FloatText → List ℕ → Result
on_received floats bytes =
    let m : List ℕ = padded msg_size bytes in
    let udp : List ℕ = drop udp_at m in
    if length bytes == 0
    then ended []
    else decode floats udp >>= λ text. text_at m 0 >>= λ ip. text_at udp 0 >>= λ topic. going (
        prints (
          report ip (byte_at m 16 + 256 * byte_at m 17) topic (type_name (byte_at udp type_at))
            text)
        ∷ [])

-- The whole buffer is sent. strncmp with "subscribe" and 10 compares the terminator too.
unfoldable pub on_typed : List ℕ → Result
unfolding padded strtok
on_typed buff =
    let sent : Reply = sends (padded buflen buff) in
    if same buff (codes "exit\n") then ended (sent ∷ []) else (elim (strtok (codes " ") buff).0 [
      | none ↦ fault
      | some word ↦ going (
          sent
          ∷ prints (
              if same word (codes "subscribe")
              then codes "Subscribed to topic.\n"
              else codes "Unsubscribed from topic.\n")
          ∷ [])
    ])

unfoldable pub respond : FloatText → Input → Result
unfolding on_typed on_received
respond floats (typed buff) = on_typed buff
respond floats (received bytes) = on_received floats bytes
respond floats failed = died

-- inet_aton of the text of an address, and the connection to an address and a port.
pub record Connection : Type 0 where
  pub socket : Option ℕ
  pub inet_aton : List ℕ → Option ℕ
  pub connects : (address port : ℕ) → Bool
  pub takes : Bool

-- The subscriber sends its id, in the whole buffer.
unfoldable pub connect : (argv : List (List ℕ)) → Connection → Result
unfolding atoi padded
connect (name ∷ id ∷ server ∷ port ∷ argv) sys = elim sys.socket [
  | none ↦ died
  | some sockfd ↦ elim (sys.inet_aton server) [
    | none ↦ died
    | some address ↦
        if sys.connects address (atoi port % 2 ^ 16)
        then (if ltb (length id) buflen
            then (if sys.takes then going (sends (padded buflen id) ∷ []) else died)
            else fault)
        else died
  ]
]
connect argv sys = died

-- while (1): the replies so far, and how it goes on.
unfoldable pub go_on : List Reply → Result → Result
go_on done (going more) = going (done ++ more)
go_on done (ended more) = ended (done ++ more)
go_on done died = died
go_on done fault = fault

unfoldable pub loop : FloatText → List Input → Result
unfolding respond go_on
loop floats [] = going []
loop floats (i ∷ is) =
    let rest = loop floats is in
    elim (respond floats i) [
      | going done ↦ go_on done rest
      | ended done ↦ ended done
      | died ↦ died
      | fault ↦ fault
    ]
