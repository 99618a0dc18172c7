-- ===== src/Gateway/Accepting.antt =====
-- The framing of messages by handleNewConnection of src/service_broker/Services/ServiceGateway.cpp.
use mathlib.Core.List.{append_assoc, append-nil}
use rdws_us.Prelude.{
  ℕ, false, List, [], ◌∷◌, ◌++◌, ◌≡◌, refl, sym, ap, ◌∙◌, eqb, Bool-cases, inl, inr, All,
}
use rdws_us.Gateway.Connections.{lines_from, messages_of, receive, receive_all}

-- No byte is a newline.
abbrev pub IsOpen : List ℕ → Type 0
IsOpen bytes = All (λ b. eqb b 10 ≡ false) bytes

snoc-IsOpen : (line : List ℕ) (b : ℕ) → IsOpen line → eqb b 10 ≡ false → IsOpen (line ++ b ∷ [])
snoc-IsOpen [] b o h = (h, tt)
snoc-IsOpen (x ∷ line) b o h = (o.0, snoc-IsOpen line b o.1 h)

lines_from-IsOpen : (line bytes : List ℕ) → IsOpen line → IsOpen (lines_from line bytes).1
unfolding lines_from
lines_from-IsOpen line [] o = o
lines_from-IsOpen line (b ∷ bytes) o = elim (Bool-cases (eqb b 10)) [
  | inl ends ↦ rw ends (lines_from-IsOpen [] bytes tt)
  | inr goes ↦ rw goes (lines_from-IsOpen (line ++ b ∷ []) bytes (snoc-IsOpen line b o goes))
]

-- Bytes without a newline only make the line longer.
lines_from-open :
    (line more bytes : List ℕ)
    → IsOpen more
    → lines_from line (more ++ bytes) ≡ lines_from (line ++ more) bytes
unfolding lines_from
lines_from-open line [] bytes o = ap (λ l. lines_from l bytes) (sym (append-nil line))
lines_from-open line (b ∷ more) bytes o = rw o.0 (
    lines_from-open (line ++ b ∷ []) more bytes o.1
    ∙ ap (λ l. lines_from l bytes) (append_assoc line (b ∷ []) more))

lines_from-append :
    (line xs ys : List ℕ)
    → lines_from line (xs ++ ys) ≡ (
      (lines_from line xs).0 ++ (lines_from (lines_from line xs).1 ys).0,
      (lines_from (lines_from line xs).1 ys).1,
    )
unfolding lines_from
lines_from-append line [] ys = refl
lines_from-append line (b ∷ xs) ys = elim (Bool-cases (eqb b 10)) [
  | inl ends ↦ rw ends (rw (lines_from-append [] xs ys) refl)
  | inr goes ↦ rw goes (lines_from-append (line ++ b ∷ []) xs ys)
]

messages_of-append :
    (xs ys : List (List ℕ)) → messages_of (xs ++ ys) ≡ messages_of xs ++ messages_of ys
unfolding messages_of
messages_of-append [] ys = refl
messages_of-append ([] ∷ xs) ys = messages_of-append xs ys
messages_of-append ((b ∷ line) ∷ xs) ys = rw (messages_of-append xs ys) refl

receive-append :
    (accumulator xs ys : List ℕ)
    → let (first, rest) = receive accumulator xs in
      let (second, last) = receive rest ys in
      receive accumulator (xs ++ ys) ≡ (first ++ second, last)
unfolding receive
receive-append accumulator xs ys =
    let (lines, rest) = lines_from [] (accumulator ++ xs) in
    let whole =
      ap (lines_from []) (sym (append_assoc accumulator xs ys))
      ∙ lines_from-append [] (accumulator ++ xs) ys in
    let again = lines_from-open [] rest ys (lines_from-IsOpen [] (accumulator ++ xs) tt) in
    ap (λ r. (messages_of r.0, r.1)) whole
    ∙ ap (λ m. (m, (lines_from rest ys).1)) (messages_of-append lines (lines_from rest ys).0)
    ∙ ap (λ r. (messages_of lines ++ messages_of r.0, r.1)) (sym again)

abbrev pub concat : List (List ℕ) → List ℕ
concat [] = []
concat (chunk ∷ chunks) = chunk ++ concat chunks

receive_all-from :
    (accumulator chunk : List ℕ) (chunks : List (List ℕ))
    → receive_all accumulator (chunk ∷ chunks) ≡ receive accumulator (concat (chunk ∷ chunks))
unfolding receive_all
receive_all-from accumulator chunk [] =
    let (messages, rest) = receive accumulator chunk in
    ap (λ m. (m, rest)) (append-nil messages) ∙ ap (receive accumulator) (sym (append-nil chunk))
receive_all-from accumulator chunk (next ∷ chunks) =
    let (first, rest) = receive accumulator chunk in
    ap (λ r. (first ++ r.0, r.1)) (receive_all-from rest next chunks)
    ∙ sym (receive-append accumulator chunk (concat (next ∷ chunks)))

-- The messages that a connection delivers, and the bytes it keeps for later, depend only on the
-- bytes that were sent, not on how recv() cuts them into chunks.
pub receive_all-concat :
    (chunks : List (List ℕ)) → receive_all [] chunks ≡ receive [] (concat chunks)
unfolding receive_all receive
receive_all-concat [] = refl
receive_all-concat (chunk ∷ chunks) = receive_all-from [] chunk chunks
