-- ===== src/Web/Client/Id.antt =====
-- How long the id of a book in Tema_3/client.c may be.
use communication_protocols.Base.{
  ℕ, ◌≡◌, refl, true, false, dec_lt, Option, none, some, List, ◌∷◌, ◌++◌, arith, ltb, if◌then◌else◌,
  length, codes,
}
use communication_protocols.Web.Requests.{◌>>=◌}
use communication_protocols.Web.Client.{
  Json, get_book, del_book, Request, get, delete, Client, len, urllen, cleared_field, field,
  book_url, id_request, request_of,
}

abbrev for_url : (List ℕ → Request) → List ℕ → List ℕ → Option (Request × List ℕ)
for_url request rest url = some (request url, rest)

abbrev sending : Request × List ℕ → Option (Option Request × List ℕ)
sending q = some (some q.0, q.1)

id-step :
    (request : List ℕ → Request) (i : List ℕ × List ℕ)
    → ((book_url i.0 >>= for_url request i.1) >>= sending) ≡ (
        if ltb (length i.0) 23
        then some (some (request (codes "/api/v1/tema/library/books/" ++ i.0)), i.1)
        else none)
unfolding book_url
id-step request i = elim (dec_lt (length i.0) 23) [
  | yes h ↦
      let a : ltb (length i.0) 23 ≡ true = ground arith in
      let b : ltb (length (codes "/api/v1/tema/library/books/" ++ i.0)) urllen ≡ true =
        ground arith in
      rw (a, b) refl
  | no h ↦
      let a : ltb (length i.0) 23 ≡ false = ground arith in
      let b : ltb (length (codes "/api/v1/tema/library/books/" ++ i.0)) urllen ≡ false =
        ground arith in
      rw (a, b) refl
]

module _ (json : Json) (s : Client) (c : ℕ) (stdin : List ℕ) where
  abbrev id : List ℕ
  id = (cleared_field len (c ∷ stdin)).0

  abbrev rest : List ℕ
  rest = (cleared_field len (c ∷ stdin)).1

  -- The request for the book with the id that is read, or an overflow.
  abbrev of_id : (List ℕ → Request) → Option (Option Request × List ℕ)
  of_id request =
      if ltb (length id) 23
      then some (some (request (codes "/api/v1/tema/library/books/" ++ id)), rest)
      else none

  id_request-of_id :
      (request : List ℕ → Request)
      → (id_request json request (c ∷ stdin) >>= sending) ≡ of_id request
  unfolding id_request field
  id_request-of_id request = id-step request (cleared_field len (c ∷ stdin))

  -- With input left, get_book and del_book read an id and send a request for its URL, with the token
  -- and without the cookie, exactly if the id has less than 23 characters; a longer one is written
  -- behind the buffer of the URL.
  pub book_id_fits :
      (request_of json s get_book (c ∷ stdin) ≡ of_id (λ url. get url none s.jwt))
      × (request_of json s del_book (c ∷ stdin) ≡ of_id (λ url. delete url s.jwt))
  unfolding request_of
  book_id_fits =
      (id_request-of_id (λ url. get url none s.jwt), id_request-of_id (λ url. delete url s.jwt))
