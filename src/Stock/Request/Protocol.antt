-- ===== src/Stock/Request/Protocol.antt =====
-- prj2/task1/stock_endpoint.c: the lines that a client writes.
use system_programing.Common.{
  ℕ, Bool, true, false, [], ◌∷◌, ◌++◌, some, ◌≡◌, refl, ap, sym, ◌≢◌, append-nil, ◌∙◌, arith, ◌>>=◌,
  All,
}
use system_programing.Common.Int.{ℤ, IsInt, neg_int}
use system_programing.Common.Text.{Bytes, codes, newline, space, strtok, take_token, skip_delims}
use system_programing.Common.Decimal.{atoi, print_int}
use system_programing.Common.Decimal.RoundTrip.{
  atoi-print_int, is_number_byte, print_int-bytes, print_int-ne-nil,
}
use system_programing.Stock.{Tree, update_stock}
use system_programing.Stock.Request.{
  is_blank, next_number, buy, sell, dispatch, process_request, buy_reply, sell_reply,
}

-- A text without delimiters in front of one is taken whole.
take_token_word :
    (delim : ℕ → Bool) (w : Bytes) (c : ℕ) (rest : Bytes)
    → All (λ b. delim b ≡ false) w
    → delim c ≡ true
    → take_token delim (w ++ c ∷ rest) ≡ (w, rest)
unfolding take_token
take_token_word delim [] c rest h d = rw d
take_token_word delim (b ∷ w) c rest h d = rw (h.0, take_token_word delim w c rest h.1 d)

-- The same for `strtok`, where the text is not empty.
strtok_word :
    (delim : ℕ → Bool) (w : Bytes) (c : ℕ) (rest : Bytes)
    → w ≢ []
    → All (λ b. delim b ≡ false) w
    → delim c ≡ true
    → strtok delim (w ++ c ∷ rest) ≡ some (w, rest)
unfolding strtok skip_delims
strtok_word delim [] c rest ne h d = absurd (ne refl)
strtok_word delim (b ∷ w) c rest ne h d =
    rw h.0 (ap some (take_token_word delim (b ∷ w) c rest h d))

not_blank : (c : ℕ) → is_number_byte c ≡ true → is_blank c ≡ false
not_blank c h = ground arith

All-imp {ℓ κ} :
    {P : ℕ → Type ℓ} {Q : ℕ → Type κ} → ((c : ℕ) → P c → Q c) → (w : Bytes) → All P w → All Q w
All-imp f [] h = tt
All-imp f (c ∷ w) h = (f c h.0, All-imp f w h.1)

next_number-print_int :
    (v : ℤ) (c : ℕ) (rest : Bytes)
    → IsInt v
    → is_blank c ≡ true
    → next_number (print_int v ++ c ∷ rest) ≡ some (v, rest)
unfolding next_number
next_number-print_int v c rest i d =
    rw
      (strtok_word is_blank (print_int v) c rest (print_int-ne-nil v)
        (All-imp not_blank (print_int v) (print_int-bytes v)) d)
      (ap (λ w. some (w, rest))
        (ap atoi (sym (append-nil (print_int v))) ∙ atoi-print_int v [] i tt))

-- The text of a command with two numbers.
abbrev pub request : Bytes → ℤ → ℤ → Bytes
request word id cnt = word ++ space ∷ (print_int id ++ space ∷ (print_int cnt ++ newline ∷ []))

process_request-buy :
    (root : Tree) (id cnt : ℤ)
    → IsInt id
    → IsInt cnt
    → process_request root (request (codes "buy") id cnt)
      ≡ (update_stock root id (neg_int cnt) >>= λ p. some (buy_reply p.0, p.1))
unfolding process_request dispatch buy strtok skip_delims take_token
process_request-buy root id cnt i j =
    rw
      (
        next_number-print_int id space (print_int cnt ++ newline ∷ []) i refl,
        next_number-print_int cnt newline [] j refl,
      )
      refl

process_request-sell :
    (root : Tree) (id cnt : ℤ)
    → IsInt id
    → IsInt cnt
    → process_request root (request (codes "sell") id cnt)
      ≡ (update_stock root id cnt >>= λ p. some (sell_reply p.0, p.1))
unfolding process_request dispatch sell strtok skip_delims take_token
process_request-sell root id cnt i j =
    rw
      (
        next_number-print_int id space (print_int cnt ++ newline ∷ []) i refl,
        next_number-print_int cnt newline [] j refl,
      )
      refl

-- For an ID and an amount of type int, printed in decimal, the line "buy ID N" runs update_stock on
-- that ID with the amount negated, and the line "sell ID N" with the amount; each replies by the
-- status that update_stock returns.
pub process_request-trades :
    (root : Tree) (id cnt : ℤ)
    → IsInt id
    → IsInt cnt
    → (process_request root (request (codes "buy") id cnt)
        ≡ (update_stock root id (neg_int cnt) >>= λ p. some (buy_reply p.0, p.1)))
      × (process_request root (request (codes "sell") id cnt)
          ≡ (update_stock root id cnt >>= λ p. some (sell_reply p.0, p.1)))
process_request-trades root id cnt i j =
    (process_request-buy root id cnt i j, process_request-sell root id cnt i j)
