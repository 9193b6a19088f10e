-- ===== src/Web/Client/Carries.antt =====
-- What the requests of Tema_3/client.c carry is what the client has.
use communication_protocols.Base.{
  subst, ℕ, ◌≡◌, refl, Bool, true, false, Option, none, some, List, codes,
}
use communication_protocols.Web.Requests.{◌>>=◌}
use communication_protocols.Web.Client.{
  Json, Command, exit, register, login, enter_library, get_books, get_book, add_book, del_book,
  logout, unknown, Request, get, post, delete, Client, len, booklen, field, book_url,
  credentials_request, book_request, id_request, request_of,
}

abbrev pub is_some : {A : Type 0} → Option A → Bool
is_some none = false
is_some (some _) = true

abbrev pub implies : Bool → Bool → Bool
implies true b = b
implies false b = true

abbrev pub has_cookie : Option Request → Bool
has_cookie (some (get url cookies token)) = is_some cookies
has_cookie (some (post url token body)) = false
has_cookie (some (delete url token)) = false
has_cookie none = false

abbrev pub has_token : Option Request → Bool
has_token (some (get url cookies token)) = is_some token
has_token (some (post url token body)) = is_some token
has_token (some (delete url token)) = is_some token
has_token none = false

pub implies_refl : (b : Bool) → implies b b ≡ true
implies_refl true = refl
implies_refl false = refl

-- What a chain that returns says of its links.
pub bind-some :
    {A B : Type 0} {G : Type 0} (o : Option A) (f : A → Option B) (b : B)
    → o >>= f ≡ some b
    → ((a : A) → o ≡ some a → f a ≡ some b → G)
    → G
bind-some none f b e k = absurd (cc e)
bind-some (some a) f b e k = k a refl e

abbrev pub OfSome : {A : Type 0} → (A → Type 0) → Option A → Type 0
OfSome P none = Unit {0}
OfSome P (some a) = P a

pub some-subst : {A : Type 0} (P : A → Type 0) (a b : A) → some a ≡ some b → P a → P b
some-subst P a b e h = subst (OfSome P) e h

-- What a request carries is what the client has.
abbrev pub Carries : Client → Option Request → Type 0
Carries s r =
    (implies (has_cookie r) (is_some s.cookie) ≡ true)
    × (implies (has_token r) (is_some s.jwt) ≡ true)

module _ (json : Json) where
  id_request-form :
      (request : List ℕ → Request) (stdin : List ℕ) (q : Request × List ℕ)
      → id_request json request stdin ≡ some q
      → (url : List ℕ) × (q.0 ≡ request url)
  unfolding id_request
  id_request-form request stdin q e = bind-some (field len stdin) _ q e λ i _ e1.
      bind-some (book_url i.0) _ q e1
        λ url _ e2. some-subst (λ x. (u : List ℕ) × (x.0 ≡ request u)) _ q e2 (url, refl)

  book_request-form :
      (s : Client) (stdin : List ℕ) (q : Request × List ℕ)
      → book_request json s stdin ≡ some q
      → (url body : List ℕ) × (q.0 ≡ post url s.jwt body)
  unfolding book_request
  book_request-form s stdin q e = bind-some (field booklen stdin) _ q e λ t _ e1.
      bind-some (field booklen t.1) _ q e1 λ a _ e2. bind-some (field booklen a.1) _ q e2 λ g _ e3.
        bind-some (field booklen g.1) _ q e3 λ p _ e4.
          bind-some (field booklen p.1) _ q e4
            λ n _ e5. some-subst (λ x. (u b : List ℕ) × (x.0 ≡ post u s.jwt b)) _ q e5 (_, _, refl)

  id_request-Carries :
      (s : Client) (request : List ℕ → Request) (stdin : List ℕ) (r : Option Request × List ℕ)
      → ((url : List ℕ) → Carries s (some (request url)))
      → (id_request json request stdin >>= λ q. some (some q.0, q.1)) ≡ some r
      → Carries s r.0
  id_request-Carries s request stdin r h e =
      bind-some (id_request json request stdin) _ r e λ q eq e1.
        let (url, form) = id_request-form request stdin q eq in
        some-subst (λ x. Carries s x.0) _ r e1 (rw form (h url))

  login-Carries :
      (s : Client) (o : Option (List ℕ)) (q : Request × List ℕ) (stdin : List ℕ)
      (r : Option Request × List ℕ)
      → Carries s (some q.0)
      → (elim o as (λ _. Option (Option Request × List ℕ)) [
        | some _ ↦ some (none, stdin)
        | none ↦ some (some q.0, q.1)
      ])
        ≡ some r
      → Carries s r.0
  login-Carries s none q stdin r h e = some-subst (λ x. Carries s x.0) _ r e h
  login-Carries s (some c) q stdin r h e = some-subst (λ x. Carries s x.0) _ r e (refl, refl)

  pub request_of-Carries :
      (s : Client) (c : Command) (stdin : List ℕ) (r : Option Request × List ℕ)
      → request_of json s c stdin ≡ some r
      → Carries s r.0
  unfolding request_of credentials_request
  request_of-Carries s exit stdin r e = some-subst (λ x. Carries s x.0) _ r e (refl, refl)
  request_of-Carries s register stdin r e = some-subst (λ x. Carries s x.0) _ r e (refl, refl)
  request_of-Carries s login stdin r e =
      login-Carries s s.cookie (credentials_request json (codes "/api/v1/tema/auth/login") stdin)
        stdin r (refl, refl) e
  request_of-Carries s enter_library stdin r e =
      some-subst (λ x. Carries s x.0) _ r e (implies_refl (is_some s.cookie), refl)
  request_of-Carries s get_books stdin r e =
      some-subst (λ x. Carries s x.0) _ r e
        (implies_refl (is_some s.cookie), implies_refl (is_some s.jwt))
  request_of-Carries s get_book stdin r e =
      id_request-Carries s (λ url. get url none s.jwt) stdin r
        (λ url. (refl, implies_refl (is_some s.jwt))) e
  request_of-Carries s add_book stdin r e = bind-some (book_request json s stdin) _ r e λ q eq e1.
      let (url, body, form) = book_request-form s stdin q eq in
      some-subst (λ x. Carries s x.0) _ r e1 (rw form (refl, implies_refl (is_some s.jwt)))
  request_of-Carries s del_book stdin r e =
      id_request-Carries s (λ url. delete url s.jwt) stdin r
        (λ url. (refl, implies_refl (is_some s.jwt))) e
  request_of-Carries s logout stdin r e =
      some-subst (λ x. Carries s x.0) _ r e (implies_refl (is_some s.cookie), refl)
  request_of-Carries s unknown stdin r e = some-subst (λ x. Carries s x.0) _ r e (refl, refl)
