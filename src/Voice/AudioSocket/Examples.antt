-- ===== src/Voice/AudioSocket/Examples.antt =====
-- Two frames that arrive in three reads.
use owen_main.Common.{ℕ, ◌≡◌, refl, List, [], ◌∷◌, arith}
use owen_main.Voice.AudioSocket.{Frame, kind_audio, kind_terminate, encode_all, cut, feed, feed_all}
use owen_main.Voice.AudioSocket.Stream.{feed_all_whole}
use owen_main.Voice.AudioSocket.Wire.{feed_all-encode_all}
use owen_main.Voice.AudioSocket.Kept.{Keeps, feed_all-Keeps}

abbrev beep : Frame
beep = record { kind = kind_audio; payload = 1 ∷ 255 ∷ [] }

abbrev bye : Frame
bye = record { kind = kind_terminate; payload = [] }

abbrev pieces : List (List ℕ)
pieces = (16 ∷ 0 ∷ []) ∷ (2 ∷ 1 ∷ 255 ∷ 0 ∷ []) ∷ (0 ∷ 0 ∷ []) ∷ []

split_header : feed [] (16 ∷ 0 ∷ []) ≡ ([], 16 ∷ 0 ∷ [])
unfolding feed
split_header = refl

feed_all_whole_example : feed_all [] pieces ≡ feed [] (16 ∷ 0 ∷ 2 ∷ 1 ∷ 255 ∷ 0 ∷ 0 ∷ 0 ∷ [])
unfolding cut
feed_all_whole_example = feed_all_whole [] pieces refl

feed_all-encode_all_example : feed_all [] pieces ≡ (beep ∷ bye ∷ [], [])
unfolding encode_all
feed_all-encode_all_example =
    feed_all-encode_all (beep ∷ bye ∷ []) (16 ∷ 0 ∷ 2 ∷ 1 ∷ 255 ∷ 0 ∷ 0 ∷ 0 ∷ []) pieces
      (omega arith) refl refl

feed_all-Keeps_example : Keeps (feed_all [] pieces) (16 ∷ 0 ∷ 2 ∷ 1 ∷ 255 ∷ 0 ∷ 0 ∷ 0 ∷ [])
feed_all-Keeps_example = feed_all-Keeps pieces (omega arith)
