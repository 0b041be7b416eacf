-- ===== src/Voice/AudioSocket/Uuid.antt =====
-- The session that a frame names: `Frame.uuid_str` of owen-voice/app/audiosocket.py.
use Prim.Native.String.{◌++◌}
use owen_main.Common.{
  ℕ, zero, suc, ◌/◌, ◌%◌, ◌≡◌, refl, String, List, [], ◌∷◌, ◌||◌, not, Option, none, some, ◌==◌,
  length, take, drop, if◌then◌else◌,
}
use owen_main.Voice.AudioSocket.{Frame, is_uuid}

nth_text : ℕ → List String → String
nth_text n [] = ""
nth_text zero (d ∷ ds) = d
nth_text (suc n) (d ∷ ds) = nth_text n ds

abbrev hex_digits : List String
hex_digits =
    "0" ∷ "1" ∷ "2" ∷ "3" ∷ "4" ∷ "5" ∷ "6" ∷ "7" ∷ "8" ∷ "9" ∷ "a" ∷ "b" ∷ "c" ∷ "d" ∷ "e" ∷ "f"
    ∷ []

-- `bytes.hex`
unfoldable pub hex : List ℕ → String
unfolding nth_text
hex [] = ""
hex (b ∷ bs) = nth_text (b / 16) hex_digits ++ (nth_text (b % 16) hex_digits ++ hex bs)

-- Each byte is two digits of the text.
unfoldable pub uuid_str : Frame → Option String
unfolding is_uuid hex
uuid_str f =
    let p = f.payload in
    if not (is_uuid f) || not (length p == 16)
    then none
    else some (
        hex (take 4 p)
        ++ ("-"
            ++ (hex (take 2 (drop 4 p))
                ++ ("-"
                    ++ (hex (take 2 (drop 6 p))
                        ++ ("-" ++ (hex (take 2 (drop 8 p)) ++ ("-" ++ hex (drop 10 p)))))))))

uuid_str_example :
    uuid_str (record {
      kind = 1;
      payload = 0 ∷ 1 ∷ 2 ∷ 3 ∷ 4 ∷ 5 ∷ 6 ∷ 7 ∷ 8 ∷ 9 ∷ 10 ∷ 11 ∷ 12 ∷ 13 ∷ 14 ∷ 255 ∷ [];
    })
    ≡ some "00010203-0405-0607-0809-0a0b0c0d0eff"
unfolding uuid_str
uuid_str_example = refl
