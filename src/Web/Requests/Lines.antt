-- ===== src/Web/Requests/Lines.antt =====
-- What the requests of Tema_3/requests.c are made of: lines that end in CRLF, in order.
use communication_protocols.Base.{
  ℕ, ◌+◌, ◌<◌, ◌≡◌, ap, ◌∙◌, inl, inr, Bool, true, false, ◌&&◌, Option, none, some, List, [], ◌∷◌,
  ◌++◌, arith, append_assoc, append-nil, ltb, if◌then◌else◌, Bool-cases, dec_lt, lt→ltb, length,
  length-append, codes,
}
use communication_protocols.CString.{decimal}
use communication_protocols.Web.Requests.{
  buflen, linelen, crlf, ◌>>=◌, compute_message, sprintf, add_line, compute_get_request,
  compute_post_request, compute_del_request,
}

-- A line that is formatted in the buffer for lines, or one that is taken as it is.
pub data Line : Type 0 where
  formatted : List ℕ → Line
  plain : List ℕ → Line

abbrev pub text : Line → List ℕ
text (formatted t) = t
text (plain t) = t

abbrev pub is_short : Line → Bool
is_short (formatted t) = ltb (length t) 1000
is_short (plain t) = true

abbrev pub all_short : List Line → Bool
all_short [] = true
all_short (l ∷ ls) = is_short l && all_short ls

-- Each line with its CRLF.
abbrev pub render : List Line → List ℕ
render [] = []
render (l ∷ ls) = text l ++ (codes "\r\n" ++ render ls)

-- The message of these lines, if each line fits its buffer and all of them fit the message's.
abbrev pub message_of : List Line → Option (List ℕ)
message_of ls = if all_short ls && ltb (length (render ls)) 4096 then some (render ls) else none

write : List ℕ → List Line → Option (List ℕ)
write m [] = some m
write m (formatted t ∷ ls) = add_line m t >>= λ m'. write m' ls
write m (plain t ∷ ls) = compute_message m t >>= λ m'. write m' ls

-- The message with the lines behind it, if all of it fits.
abbrev extended : List ℕ → List Line → Option (List ℕ)
extended m ls =
    if all_short ls && ltb (length m + length (render ls)) buflen
    then some (m ++ render ls)
    else none

regroup :
    (m t : List ℕ) (ls : List Line) → (m ++ (t ++ crlf)) ++ render ls ≡ m ++ render (plain t ∷ ls)
regroup m t ls = simp append_assoc

length-line :
    (t : List ℕ) (ls : List Line)
    → length (render (plain t ∷ ls)) ≡ length t + 2 + length (render ls)
length-line t ls = omega (arith, length-append t (crlf ++ render ls))

length-message : (m t : List ℕ) → length (m ++ (t ++ crlf)) ≡ length m + length t + 2
length-message m t = omega (arith, length-append m (t ++ crlf), length-append t crlf)

write-plain :
    (m t : List ℕ) (ls : List Line)
    → (length (m ++ (t ++ crlf)) < buflen
        → write (m ++ (t ++ crlf)) ls ≡ extended (m ++ (t ++ crlf)) ls)
    → write m (plain t ∷ ls) ≡ extended m (plain t ∷ ls)
unfolding write compute_message
write-plain m t ls ih = elim (dec_lt (length m + length t + 2) buflen) [
  | yes fits ↦
      rw (lt→ltb (length m + length t + 2) buflen fits)
        (ground (arith, ih, regroup m t ls, length-line t ls, length-message m t))
  | no full ↦ ground (arith, length-line t ls)
]

add_line-short : (m t : List ℕ) → ltb (length t) linelen ≡ true → add_line m t ≡ compute_message m t
unfolding add_line sprintf
add_line-short m t short = rw short

add_line-long : (m t : List ℕ) → ltb (length t) linelen ≡ false → add_line m t ≡ none
unfolding add_line sprintf
add_line-long m t long = rw long

-- Writing the lines behind a message that fits.
write_lem : (m : List ℕ) (ls : List Line) → length m < buflen → write m ls ≡ extended m ls
unfolding write
write_lem m [] h = rw append-nil (ground arith)
write_lem m (plain t ∷ ls) h = write-plain m t ls (write_lem (m ++ (t ++ crlf)) ls)
write_lem m (formatted t ∷ ls) h = elim (Bool-cases (ltb (length t) linelen)) [
  | inl short ↦
      ap (λ o. o >>= λ m'. write m' ls) (add_line-short m t short)
      ∙ write-plain m t ls (write_lem (m ++ (t ++ crlf)) ls)
      ∙ rw short
  | inr long ↦ ap (λ o. o >>= λ m'. write m' ls) (add_line-long m t long) ∙ rw long
]

message_of-write : (ls : List Line) → write [] ls ≡ message_of ls
message_of-write ls = write_lem [] ls (omega arith) ∙ ground arith

abbrev pub optional : (List ℕ → List ℕ) → Option (List ℕ) → List Line → List Line
optional format none ls = ls
optional format (some value) ls = formatted (format value) ∷ ls

-- The lines of a request without a body, and of a POST request. The body is followed by a CRLF like
-- any line.
abbrev pub bare_lines : (method host url : List ℕ) (cookies token : Option (List ℕ)) → List Line
bare_lines method host url cookies token =
    formatted (method ++ (url ++ codes " HTTP/1.1"))
    ∷ formatted (codes "Host: " ++ host)
    ∷ optional (λ c. codes "Cookie: " ++ (c ++ codes "; ")) cookies
        (optional (λ t. codes "Authorization: Bearer " ++ t) token (plain [] ∷ []))

abbrev pub post_lines :
    (host url : List ℕ) (token : Option (List ℕ)) (content_type body : List ℕ)
    (cookies : Option (List ℕ))
    → List Line
post_lines host url token content_type body cookies =
    formatted (codes "POST " ++ (url ++ codes " HTTP/1.1"))
    ∷ formatted (codes "Host: " ++ host)
    ∷ formatted (codes "Content-Type: " ++ content_type)
    ∷ formatted (codes "Content-Length: " ++ decimal (length body))
    ∷ optional (λ c. codes "Cookie: " ++ (c ++ codes "; ")) cookies
        (optional (λ t. codes "Authorization: Bearer " ++ t) token (plain [] ∷ plain body ∷ []))

-- A GET request is its start line, the host, the cookie and the token that are given, and an empty
-- line, if these fit the buffers; if one of them does not, a buffer overflows.
pub compute_get_request_lem :
    (host url : List ℕ) (cookies token : Option (List ℕ))
    → compute_get_request host url cookies token
      ≡ message_of (bare_lines (codes "GET ") host url cookies token)
unfolding compute_get_request write
compute_get_request_lem host url none none =
    message_of-write (bare_lines (codes "GET ") host url none none)
compute_get_request_lem host url none (some t) =
    message_of-write (bare_lines (codes "GET ") host url none (some t))
compute_get_request_lem host url (some c) none =
    message_of-write (bare_lines (codes "GET ") host url (some c) none)
compute_get_request_lem host url (some c) (some t) =
    message_of-write (bare_lines (codes "GET ") host url (some c) (some t))

-- A DELETE request likewise.
pub compute_del_request_lem :
    (host url : List ℕ) (cookies token : Option (List ℕ))
    → compute_del_request host url cookies token
      ≡ message_of (bare_lines (codes "DELETE ") host url cookies token)
unfolding compute_del_request write
compute_del_request_lem host url none none =
    message_of-write (bare_lines (codes "DELETE ") host url none none)
compute_del_request_lem host url none (some t) =
    message_of-write (bare_lines (codes "DELETE ") host url none (some t))
compute_del_request_lem host url (some c) none =
    message_of-write (bare_lines (codes "DELETE ") host url (some c) none)
compute_del_request_lem host url (some c) (some t) =
    message_of-write (bare_lines (codes "DELETE ") host url (some c) (some t))

-- A POST request is its start line, the host, the content type, the length of the body in decimal,
-- the cookie and the token that are given, an empty line, and the body followed by CRLF, if each
-- line is shorter than 1000 characters and all of them are shorter than 4096; otherwise a buffer
-- overflows.
pub compute_post_request_lem :
    (host url : List ℕ) (token : Option (List ℕ)) (content_type body : List ℕ)
    (cookies : Option (List ℕ))
    → compute_post_request host url token content_type body cookies
      ≡ message_of (post_lines host url token content_type body cookies)
unfolding compute_post_request write
compute_post_request_lem host url none type body none =
    message_of-write (post_lines host url none type body none)
compute_post_request_lem host url none type body (some c) =
    message_of-write (post_lines host url none type body (some c))
compute_post_request_lem host url (some t) type body none =
    message_of-write (post_lines host url (some t) type body none)
compute_post_request_lem host url (some t) type body (some c) =
    message_of-write (post_lines host url (some t) type body (some c))
