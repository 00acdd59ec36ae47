-- ===== src/Board/Uuid.antt =====
-- porting/impl/board.cc: the form of a generated UUID.
use xiaozhi_pc.Base.{
  ℕ, ◌/◌, ◌%◌, ◌<◌, ◌≤◌, ◌≡◌, refl, ap, sym, ◌∙◌, false, ◌&&◌, some, [], ◌∷◌, ◌++◌, arith,
  append-nil, leb, ltb, ◌==◌, if◌then◌else◌, length, get_elem?, failures_below,
  failures_below_sound,
}
use xiaozhi_pc.Base.Text.{Bytes}
use xiaozhi_pc.Mqtt.Hex.{digit, print_hex, decode_hex_string, AreBytes, decode_hex_string-print_hex}
use xiaozhi_pc.Board.{
  version_byte, variant_byte, random_byte, group_1, group_2, group_3, group_4, group_5,
  generate_uuid,
}

-- The text without its dashes.
unfoldable pub without_dashes : Bytes → Bytes
without_dashes [] = []
without_dashes (c ∷ cs) = let rest = without_dashes cs in if c == b'-' then rest else c ∷ rest

digit_no_dash : (n : ℕ) → n < 16 → (digit false n == b'-') ≡ false
digit_no_dash n h = ground arith

without_dashes-print_hex :
    (bs rest : Bytes)
    → AreBytes bs
    → without_dashes (print_hex false bs ++ rest) ≡ print_hex false bs ++ without_dashes rest
unfolding without_dashes print_hex
without_dashes-print_hex [] rest h = refl
without_dashes-print_hex (b ∷ bs) rest h = rw (
  digit_no_dash (b / 16) (omega arith),
  digit_no_dash (b % 16) (omega arith),
  without_dashes-print_hex bs rest h.1,
)

without_dashes_all :
    (bs : Bytes) → AreBytes bs → without_dashes (print_hex false bs) ≡ print_hex false bs
without_dashes_all bs h =
    ap without_dashes (sym (append-nil (print_hex false bs)))
    ∙ without_dashes-print_hex bs [] h
    ∙ (unfold without_dashes in append-nil (print_hex false bs))

without_dashes_dash : (rest : Bytes) → without_dashes (b'-' ∷ rest) ≡ without_dashes rest
unfolding without_dashes
without_dashes_dash rest = refl

AreBytes-append : (bs cs : Bytes) → AreBytes bs → AreBytes cs → AreBytes (bs ++ cs)
AreBytes-append [] cs g h = h
AreBytes-append (b ∷ bs) cs g h = (g.0, AreBytes-append bs cs g.1 h)

-- What the two special bytes are, found by trying all bytes.
version_lem : (b : ℕ) → b < 256 → (version_byte b < 256) × (version_byte b / 16 ≡ 4)
unfolding failures_below version_byte
version_lem b lt = ground (
  arith,
  failures_below_sound (λ (n : ℕ). ltb (version_byte n) 256 && version_byte n / 16 == 4) 256 b refl
      lt,
)

variant_lem :
    (b : ℕ)
    → b < 256
    → (variant_byte b < 256) × (8 ≤ variant_byte b / 16) × (variant_byte b / 16 ≤ 11)
unfolding failures_below variant_byte
variant_lem b lt = ground (
  arith,
  failures_below_sound
      (λ (n : ℕ).
        ltb (variant_byte n) 256 && (leb 8 (variant_byte n / 16) && leb (variant_byte n / 16) 11))
      256 b refl lt,
)

module _ (e : ℕ → ℕ) where
  -- The bytes behind the text.
  pub uuid_bytes : Bytes
  uuid_bytes = group_1 e ++ (group_2 e ++ (group_3 e ++ (group_4 e ++ group_5 e)))

  random_lt : (i : ℕ) → random_byte e i < 256
  random_lt i = omega arith

  pub group_1-AreBytes : AreBytes (group_1 e)
  group_1-AreBytes = (random_lt 0, (random_lt 1, (random_lt 2, (random_lt 3, tt))))

  pub group_2-AreBytes : AreBytes (group_2 e)
  group_2-AreBytes = (random_lt 4, (random_lt 5, tt))

  pub group_3-AreBytes : AreBytes (group_3 e)
  group_3-AreBytes = ((version_lem (random_byte e 6) (random_lt 6)).0, (random_lt 7, tt))

  pub group_4-AreBytes : AreBytes (group_4 e)
  group_4-AreBytes = ((variant_lem (random_byte e 8) (random_lt 8)).0, (random_lt 9, tt))

  pub group_5-AreBytes : AreBytes (group_5 e)
  group_5-AreBytes = (
    random_lt 10,
    (random_lt 11, (random_lt 12, (random_lt 13, (random_lt 14, (random_lt 15, tt))))),
  )

  uuid-AreBytes : AreBytes uuid_bytes
  unfolding uuid_bytes
  uuid-AreBytes =
      AreBytes-append (group_1 e) (group_2 e ++ (group_3 e ++ (group_4 e ++ group_5 e)))
        group_1-AreBytes
        (AreBytes-append (group_2 e) (group_3 e ++ (group_4 e ++ group_5 e)) group_2-AreBytes (
          AreBytes-append (group_3 e) (group_4 e ++ group_5 e) group_3-AreBytes
            (AreBytes-append (group_4 e) (group_5 e) group_4-AreBytes group_5-AreBytes)))

  print_hex-uuid_bytes :
      print_hex false (group_1 e)
        ++ (print_hex false (group_2 e)
            ++ (print_hex false (group_3 e)
                ++ (print_hex false (group_4 e) ++ print_hex false (group_5 e))))
      ≡ print_hex false uuid_bytes
  unfolding uuid_bytes print_hex
  print_hex-uuid_bytes = refl

  without_dashes-generate_uuid : without_dashes (generate_uuid e) ≡ print_hex false uuid_bytes
  unfolding generate_uuid without_dashes uuid_bytes
  without_dashes-generate_uuid =
      rw
        (
          without_dashes-print_hex (group_1 e) _ group_1-AreBytes,
          without_dashes_dash,
          without_dashes-print_hex (group_2 e) _ group_2-AreBytes,
          without_dashes-print_hex (group_3 e) _ group_3-AreBytes,
          without_dashes-print_hex (group_4 e) _ group_4-AreBytes,
          without_dashes_all (group_5 e) group_5-AreBytes,
        )
        print_hex-uuid_bytes

  -- Whatever the random engine gives, a generated UUID has 36 characters, decoding it without its
  -- dashes gives back the sixteen bytes, its 15th character is the version `4`, and its 20th is one
  -- of `8`, `9`, `a` and `b`.
  pub generate_uuid_text :
      (length (generate_uuid e) ≡ 36)
      × (decode_hex_string (without_dashes (generate_uuid e)) ≡ uuid_bytes)
      × (get_elem? (generate_uuid e) 14 ≡ some b'4')
      × ((n : ℕ) × (8 ≤ n) × (n ≤ 11) × (get_elem? (generate_uuid e) 19 ≡ some (digit false n)))
  unfolding generate_uuid print_hex
  generate_uuid_text = (
    refl,
    ap decode_hex_string without_dashes-generate_uuid
        ∙ decode_hex_string-print_hex false uuid_bytes uuid-AreBytes,
    ap (λ (n : ℕ). some (digit false n)) (version_lem (random_byte e 6) (random_lt 6)).1,
    (
      variant_byte (random_byte e 8) / 16,
      (variant_lem (random_byte e 8) (random_lt 8)).1,
      (variant_lem (random_byte e 8) (random_lt 8)).2,
      refl,
    ),
  )
