-- ===== src/Stdio/Numbers.antt =====
-- kernel_stdio.c: the text of a number or a string, with its padding.
use almost_os.Prelude.{
  ℕ, zero, suc, ◌+◌, ◌-◌, ◌≡◌, refl, sym, ap, ap₂, ◌∙◌, Bool, true, false, ◌&&◌, List, [], ◌∷◌,
  ◌++◌, Bytes, arith, ltb, ◌==◌, if◌then◌else◌, length, Bool-cases, inl, inr,
}
use mathlib.Core.List.{append-nil}
use almost_os.Prelude.Int.{ℤ, pos, negsuc}
use almost_os.Stdio.{
  Output, put, numbuf_size, buffer_size, number_digits, print_padding, print_reversed,
  decimal_digit, negated_digit, hex_digit, print_decimal, print_hex, print_string,
}
use almost_os.Stdio.Text.{
  push, append, append_full, append_room, append-++, replicate, print_padding_lem, reversed,
  print_reversed_lem, digits, number_digits_lem,
}

-- Zeros up to the width, where they are asked for.
unfoldable pub padding : Bool → ℕ → List ℕ → List ℕ
padding zero_pad width text =
    if zero_pad && ltb (length text) width then replicate (width - length text) 48 else []

unfoldable pub hex_text : ℕ → ℕ → Bool → Bool → List ℕ
unfolding padding
hex_text val width zero_pad uppercase =
    let text = digits numbuf_size 16 (hex_digit uppercase) val in
    padding zero_pad width text ++ text

unfoldable pub decimal_text : ℤ → ℕ → Bool → List ℕ
unfolding padding
decimal_text (pos val) width zero_pad =
    let text = digits numbuf_size 10 decimal_digit val in padding zero_pad width text ++ text
decimal_text (negsuc n) width zero_pad = 45 ∷ digits numbuf_size 10 (negated_digit n) (n + 1)

-- At most `n` characters of the string at an address.
unfoldable pub string_text : ℕ → Bytes → ℕ → List ℕ
string_text zero memory str = []
string_text (suc n) memory str =
    let rest = string_text n memory (str + 1) in if memory str == 0 then [] else memory str ∷ rest

print_if_padding :
    (maxlen n : ℕ) (o : Output) (b : Bool)
    → (if b then print_padding maxlen n o else o)
      ≡ append maxlen o (if b then replicate n 48 else [])
unfolding append
print_if_padding maxlen n o true = print_padding_lem maxlen n o
print_if_padding maxlen n o false = refl

print_padded :
    (maxlen width : ℕ) (zero_pad : Bool) (o : Output) (numbuf : Bytes) (num_i : ℕ) (text : List ℕ)
    → reversed numbuf num_i ≡ text
    → num_i ≡ length text
    → print_reversed maxlen numbuf num_i
        (if zero_pad && ltb num_i width then print_padding maxlen (width - num_i) o else o)
      ≡ append maxlen o (padding zero_pad width text ++ text)
unfolding padding
print_padded maxlen width zero_pad o numbuf num_i text e l =
    print_reversed_lem maxlen numbuf num_i _
    ∙ ap₂ (append maxlen)
        (rw l
          (print_if_padding maxlen (width - length text) o (zero_pad && ltb (length text) width)))
        e
    ∙ sym (append-++ maxlen o (padding zero_pad width text) text)

number_written :
    (base : ℕ) (digit : ℕ → ℕ) (val : ℕ) (numbuf : Bytes)
    → let r = number_digits numbuf_size base digit val numbuf 0 in
      let text = digits numbuf_size base digit val in
      (reversed r.0 r.1 ≡ text) × (r.1 ≡ length text)
unfolding reversed
number_written base digit val numbuf =
    let added = number_digits_lem 15 base digit val numbuf 0 refl in
    (added.0 ∙ append-nil (digits numbuf_size base digit val), omega (arith, added.1))

pub print_hex_lem :
    (val : ℕ) (numbuf : Bytes) (o : Output) (maxlen width : ℕ) (zero_pad uppercase : Bool)
    → print_hex val numbuf o maxlen width zero_pad uppercase
      ≡ append maxlen o (hex_text val width zero_pad uppercase)
unfolding print_hex hex_text
print_hex_lem val numbuf o maxlen width zero_pad uppercase =
    let (e, l) = number_written 16 (hex_digit uppercase) val numbuf in
    print_padded maxlen width zero_pad o _ _ _ e l

pub print_decimal_lem :
    (val : ℤ) (numbuf : Bytes) (o : Output) (maxlen width : ℕ) (zero_pad : Bool)
    → print_decimal val numbuf o maxlen width zero_pad
      ≡ append maxlen o (decimal_text val width zero_pad)
unfolding print_decimal decimal_text append push
print_decimal_lem (pos val) numbuf o maxlen width zero_pad =
    let (e, l) = number_written 10 decimal_digit val numbuf in
    print_padded maxlen width zero_pad o _ _ _ e l
print_decimal_lem (negsuc n) numbuf o maxlen width zero_pad =
    let (e, l) = number_written 10 (negated_digit n) (n + 1) numbuf in
    print_reversed_lem maxlen _ _ _ ∙ ap (append maxlen (push maxlen o 45)) e

pub print_string_lem :
    (n : ℕ) (memory : Bytes) (str : ℕ) (o : Output)
    → print_string n memory str o ≡ append buffer_size o (string_text n memory str)
unfolding print_string string_text append
print_string_lem zero memory str o = refl
print_string_lem (suc n) memory str o = elim (Bool-cases (memory str == 0)) [
  | inl end ↦ rw end refl
  | inr more ↦ elim (Bool-cases (ltb o.buf_i (buffer_size - 1))) [
    | inl room ↦
        rw (more, room)
          (print_string_lem n memory (str + 1) (put o (memory str))
            ∙ sym (append_room buffer_size o (memory str) (string_text n memory (str + 1)) room))
    | inr full ↦
        rw (more, full)
          (sym (append_full buffer_size o (memory str ∷ string_text n memory (str + 1)) full))
  ]
]
