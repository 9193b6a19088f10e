-- ===== src/Broker/Server/Words.antt =====
-- How Tema_2/server.cpp takes a command apart by strtok.
use communication_protocols.Base.{
  ℕ, ◌≡◌, refl, true, false, some, List, [], ◌∷◌, ◌++◌, ltb, ◌==◌, length, codes,
}
use communication_protocols.CString.{is_prefix, is_delimiter, skip, span, strtok, c_text}
use communication_protocols.Broker.Command.{subscribe, unsubscribe, on_command, on_message}
use communication_protocols.Broker.State.{Server, running, terminated}

-- A text without a space, that strtok takes as one token.
abbrev pub NoSpace : List ℕ → Type 0
NoSpace [] = Unit {0}
NoSpace (c ∷ s) = ((32 == c) ≡ false) × NoSpace s

abbrev pub Word : List ℕ → Type 0
Word [] = ⊥
Word (c ∷ s) = NoSpace (c ∷ s)

span-NoSpace : (s r : List ℕ) → NoSpace s → span (codes " ") (s ++ (32 ∷ r)) ≡ (s, r)
unfolding span is_delimiter
span-NoSpace [] r h = refl
span-NoSpace (c ∷ s) r h = rw (h.0, span-NoSpace s r h.1)

span-end : (s : List ℕ) → NoSpace s → span (codes " ") s ≡ (s, [])
unfolding span is_delimiter
span-end [] h = refl
span-end (c ∷ s) h = rw (h.0, span-end s h.1)

not_space : (c : ℕ) → (32 == c) ≡ false → is_delimiter (codes " ") c ≡ false
unfolding is_delimiter
not_space c h = rw h

strtok-Word : (s r : List ℕ) → Word s → strtok (codes " ") (s ++ (32 ∷ r)) ≡ (some s, r)
unfolding strtok skip
strtok-Word [] r h = absurd h
strtok-Word (c ∷ s) r h = rw (strtok, not_space c h.0) (rw (not_space c h.0, span-NoSpace s r h.1))

strtok-end : (s : List ℕ) → Word s → strtok (codes " ") s ≡ (some s, [])
unfolding strtok skip
strtok-end [] h = absurd h
strtok-end (c ∷ s) h = rw (strtok, not_space c h.0) (rw (not_space c h.0, span-end s h.1))

-- The message of a subscription: the word, the topic, and the last token.
abbrev pub subscribe_text : (topic rest : List ℕ) → List ℕ
subscribe_text topic rest = codes "subscribe " ++ (topic ++ (32 ∷ rest))

abbrev pub unsubscribe_text : (topic : List ℕ) → List ℕ
unsubscribe_text topic = codes "unsubscribe " ++ topic

module _ (s : Server) (i : ℕ) where
  pub subscribe_command :
      (topic rest : List ℕ)
      → Word topic
      → Word rest
      → ltb (length topic) 50 ≡ true
      → on_command s i (subscribe_text topic rest) ≡ subscribe s i topic (some rest)
  unfolding on_command is_prefix
  subscribe_command topic rest h k fits =
      rw (on_command, strtok-Word topic rest h)
        (rw (strtok-Word topic rest h, strtok-end rest k, fits))

  pub unsubscribe_command :
      (topic : List ℕ)
      → Word topic
      → on_command s i (unsubscribe_text topic) ≡ running (unsubscribe s i topic) []
  unfolding on_command is_prefix
  unsubscribe_command topic h = rw (on_command, strtok-end topic h)

  -- Any message with this text.
  pub command_of-text :
      (bytes text : List ℕ)
      → c_text bytes ≡ text
      → terminated bytes ≡ true
      → is_prefix (codes "exit") text ≡ false
      → on_message s i bytes ≡ on_command s i text
  unfolding on_message
  command_of-text bytes text e ends other = rw (ends, e, other)
