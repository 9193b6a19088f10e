-- ===== src/Web/Tests/Served.antt =====
-- A request of Tema_3/client.c that an HTTP server answers in two pieces.
use communication_protocols.Base.{
  ℕ, zero, suc, ◌-◌, ◌<◌, ◌≡◌, refl, Bool, true, false, Bool-cases, inl, inr, dec_lt, none, some,
  List, [], ◌∷◌, ◌++◌, arith, ◌==◌, if◌then◌else◌, map, replicate, length, codes,
}
use communication_protocols.CString.{NoZero, is_prefix, contains, is_delimiter, skip_spaces}
use communication_protocols.Web.Buffer.{tolower}
use communication_protocols.Web.Buffer.Find.{occurs}
use communication_protocols.Web.Transport.{
  System, wrote, got, returned, receive_from_server, header_terminator, content_length, strtol,
  digits,
}
use communication_protocols.Web.Transport.Sending.{Accepts}
use communication_protocols.Web.Transport.Whole.{receive_from_server_whole}
use communication_protocols.Web.Transport.Head.{IsHttp}
use communication_protocols.Web.Transport.Serves.{Serves}
use communication_protocols.Web.Program.{Turn, run}
use communication_protocols.Web.Program.Visit.{access_text, books_text, books_answered}
use communication_protocols.Web.Strings.{newline}
use communication_protocols.Web.Strings.Lines.{all_free, all_free-Free, IsOther, Others}
use communication_protocols.Web.Strings.Values.{IsToken}
use communication_protocols.Web.Tests.Session.{json}

abbrev head : List ℕ
head = codes "HTTP/1.1 200 OK\r\nContent-Length: 15\r\n\r\n"

abbrev body : List ℕ
body = codes "{\"token\":\"xyz\"}"

abbrev pieces : List (List ℕ)
pieces =
    codes "HTTP/1.1 200 OK\r\nConte"
    ∷ codes "nt-Length: 15\r\n\r\n{\"token\""
    ∷ codes ":\"xyz\"}"
    ∷ []

abbrev none_below : (f : ℕ → Bool) → ℕ → Bool
none_below f zero = true
none_below f (suc n) = if f n then false else none_below f n

below : (f : ℕ → Bool) (n : ℕ) → none_below f n ≡ true → (k : ℕ) → k < n → f k ≡ false
below f zero h k lt = absurd (omega arith)
below f (suc n) h k lt = elim (Bool-cases (f n)) [
  | inl e ↦ absurd (cc (rw e at h))
  | inr e ↦ elim (dec_lt k n) [
    | yes lt' ↦ below f n (rw e at h) k lt'
    | no ge ↦ let same : k ≡ n = omega arith in rw same e
  ]
]

http : IsHttp head body
unfolding strtol digits skip_spaces tolower
http = record {
  end = 35;
  ends = (refl, omega arith, below (λ k. occurs (λ a c. a == c) head header_terminator k) 35 refl);
  last = refl;
  place = 17;
  named = (
    refl,
    omega arith,
    below (λ k. occurs (λ a c. tolower a == tolower c) head content_length k) 17 refl,
  );
  counts = refl;
  fits = omega arith;
}

receive_from_server_whole_example :
    receive_from_server 170 (map got pieces ++ (got (codes "more") ∷ []))
    ≡ returned ((head ++ body) ++ (0 ∷ [])) (got (codes "more") ∷ [])
receive_from_server_whole_example =
    receive_from_server_whole head body http 170 (got (codes "more") ∷ []) pieces
      (omega arith, (omega arith, (omega arith, tt))) refl

abbrev all_nonzero : List ℕ → Bool
all_nonzero [] = true
all_nonzero (c ∷ s) = if c == 0 then false else all_nonzero s

no_zeros : (s : List ℕ) → all_nonzero s ≡ true → NoZero s
no_zeros [] h = tt
no_zeros (c ∷ s) h = elim (Bool-cases (c == 0)) [
  | inl e ↦ absurd (cc (rw e at h))
  | inr e ↦ (e, no_zeros s (rw e at h))
]

-- The first write takes 40 bytes of the text, and the next one the rest.
abbrev system : List ℕ → System
system text = record {
  socket = some 3;
  connects = true;
  writes = wrote 40 ∷ wrote (length text - 40) ∷ replicate (length text) (wrote 0);
  reads = map got pieces;
}

zeros-Accepts : (n : ℕ) → Accepts 0 (replicate n (wrote 0))
zeros-Accepts zero = tt
zeros-Accepts (suc n) = (omega arith, (λ h. h), zeros-Accepts n)

abbrev cookie : List ℕ
cookie = codes "sid=abc"

access_served : Serves (system (access_text cookie)) (access_text cookie) head body
access_served = record {
  sockfd = 3;
  opened = refl;
  connected = refl;
  takes = (
    omega arith,
    (λ _. omega arith),
    (omega arith, (λ _. omega arith), zeros-Accepts (length (access_text cookie))),
  );
  enough = omega arith;
  pieces = pieces;
  rest = [];
  reads = refl;
  some_bytes = (omega arith, (omega arith, (omega arith, tt)));
  whole = refl;
  http = http;
}

books_served :
    Serves (system (books_text cookie (codes "xyz"))) (books_text cookie (codes "xyz")) head body
books_served = record {
  sockfd = 3;
  opened = refl;
  connected = refl;
  takes = (
    omega arith,
    (λ _. omega arith),
    (omega arith, (λ _. omega arith), zeros-Accepts (length (books_text cookie (codes "xyz")))),
  );
  enough = omega arith;
  pieces = pieces;
  rest = [];
  reads = refl;
  some_bytes = (omega arith, (omega arith, (omega arith, tt)));
  whole = refl;
  http = http;
}

abbrev head_lines : List (List ℕ)
head_lines = codes "HTTP/1.1 200 OK\r" ∷ codes "Content-Length: 15\r" ∷ codes "\r" ∷ []

other :
    (c : ℕ) (line : List ℕ)
    → all_free newline (c ∷ line) ≡ true
    → contains (c ∷ line) (codes "token") ≡ false
    → IsOther (codes "token") (c ∷ line)
other c line free without = record {
  first = c;
  others = line;
  form = refl;
  free = all_free-Free newline (c ∷ line) free;
  without = without;
}

others : Others (codes "token") head_lines
unfolding contains is_prefix is_delimiter
others = (other _ _ refl refl, (other _ _ refl refl, (other _ _ refl refl, tt)))

access : IsToken b'x' (codes "yz")
unfolding is_delimiter
access = record {
  one_line = all_free-Free newline (codes "xyz") refl;
  no_quote = all_free-Free (codes "\"") (codes "xyz") refl;
}

books_answered_example :
    (t t' : Turn) × (run json 170
        (record { cookie = some cookie; jwt = none })
        (codes "enter_library\nget_books\n" ++ codes "exit\n")
        (system (access_text cookie) ∷ system (books_text cookie (codes "xyz")) ∷ [])
      ≡ (
        t
            ∷ t'
            ∷ (run json 170
                (record { cookie = some cookie; jwt = some (codes "xyz") })
                (codes "exit\n")
                []).0,
        (run json 170
            (record { cookie = some cookie; jwt = some (codes "xyz") })
            (codes "exit\n")
            []).1,
      ))
    × (t.delivered ≡ access_text cookie)
    × (t.printed ≡ (head ++ body) ++ codes "\n\n")
    × (t'.delivered ≡ books_text cookie (codes "xyz"))
    × (t'.printed ≡ codes "\n" ++ ((head ++ body) ++ codes "\n\n"))
books_answered_example =
    books_answered json 170 cookie (omega arith) none b'x' (codes "yz") (codes "exit\n") head_lines
      head body head body (system (access_text cookie)) (system (books_text cookie (codes "xyz")))
      [] (omega arith) access_served (no_zeros (head ++ body) refl) refl others access books_served
      (no_zeros (head ++ body) refl)
