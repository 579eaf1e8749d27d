-- ===== src/Codec/Canonical.antt =====
-- Bytes of the right length spell a valid structure, whose bytes they are.
use easy_usb.Base.{
  ℕ, zero, suc, ◌*◌, ◌-◌, ◌≤◌, ◌≡◌, refl, sym, ap, List, [], take, drop, length, All, arith,
  length-drop, length-take, take_all, nil_of_length, All-drop, All-take,
}
use easy_usb.Bytes.Words.{IsByte, IsU32, u32_of, be32_split, u32_of-IsU32}
use easy_usb.Codec.Layout.{
  five_bytes, basic_bytes, basic_of, cmd_submit_bytes, cmd_submit_of, ret_submit_bytes,
  ret_submit_of, words_bytes, words_of, cmd_unlink_bytes, cmd_unlink_of, ret_unlink_bytes,
  ret_unlink_of, BasicIsValid, CmdSubmitIsValid, RetSubmitIsValid, CmdUnlinkIsValid,
  RetUnlinkIsValid,
}

-- What is left of a slice after five words.
abbrev after_five : List ℕ → List ℕ
after_five s = drop 4 (drop 4 (drop 4 (drop 4 (drop 4 s))))

length-after_five : (s : List ℕ) → length (after_five s) ≡ length s - 20
length-after_five s = omega (
  arith,
  length-drop 4 s,
  length-drop 4 (drop 4 s),
  length-drop 4 (drop 4 (drop 4 s)),
  length-drop 4 (drop 4 (drop 4 (drop 4 s))),
  length-drop 4 (drop 4 (drop 4 (drop 4 (drop 4 s)))),
)

-- Five words read off the front of a slice and written again.
five_bytes_of :
    (s : List ℕ)
    → 20 ≤ length s
    → All IsByte s
    → five_bytes
        (u32_of s)
        (u32_of (drop 4 s))
        (u32_of (drop 4 (drop 4 s)))
        (u32_of (drop 4 (drop 4 (drop 4 s))))
        (u32_of (drop 4 (drop 4 (drop 4 (drop 4 s)))))
        (after_five s)
      ≡ s
five_bytes_of s n h =
    let h1 = All-drop IsByte 4 s h in
    let h2 = All-drop IsByte 4 _ h1 in
    let h3 = All-drop IsByte 4 _ h2 in
    let h4 = All-drop IsByte 4 _ h3 in
    let n1 = length-drop 4 s in
    let n2 = length-drop 4 (drop 4 s) in
    let n3 = length-drop 4 (drop 4 (drop 4 s)) in
    let n4 = length-drop 4 (drop 4 (drop 4 (drop 4 s))) in
    simp (
      be32_split _ (omega arith) h4,
      be32_split _ (omega arith) h3,
      be32_split _ (omega arith) h2,
      be32_split _ (omega arith) h1,
      be32_split s (omega arith) h,
    )

pub basic_bytes-basic_of :
    (s : List ℕ) → length s ≡ 20 → All IsByte s → basic_bytes (basic_of s) ≡ s
unfolding basic_bytes basic_of
basic_bytes-basic_of s n h =
    let rest : after_five s ≡ [] = nil_of_length _ (omega (arith, length-after_five s)) in
    rw (← rest) (five_bytes_of s (omega arith) h)

pub cmd_submit_bytes-cmd_submit_of :
    (s : List ℕ) → length s ≡ 28 → All IsByte s → cmd_submit_bytes (cmd_submit_of s) ≡ s
unfolding cmd_submit_bytes cmd_submit_of
cmd_submit_bytes-cmd_submit_of s n h =
    rw (take_all 8 (after_five s) (omega (arith, length-after_five s)))
      (five_bytes_of s (omega arith) h)

pub ret_submit_bytes-ret_submit_of :
    (s : List ℕ) → length s ≡ 28 → All IsByte s → ret_submit_bytes (ret_submit_of s) ≡ s
unfolding ret_submit_bytes ret_submit_of
ret_submit_bytes-ret_submit_of s n h =
    rw (take_all 8 (after_five s) (omega (arith, length-after_five s)))
      (five_bytes_of s (omega arith) h)

words_bytes-words_of :
    (n : ℕ) (s : List ℕ) → length s ≡ 4 * n → All IsByte s → words_bytes (words_of n s) ≡ s
unfolding words_bytes words_of
words_bytes-words_of zero s e h = sym (nil_of_length s (omega arith))
words_bytes-words_of (suc n) s e h =
    rw (words_bytes-words_of n (drop 4 s) (omega (arith, length-drop 4 s)) (All-drop IsByte 4 s h))
      (be32_split s (omega arith) h)

pub cmd_unlink_bytes-cmd_unlink_of :
    (s : List ℕ) → length s ≡ 28 → All IsByte s → cmd_unlink_bytes (cmd_unlink_of s) ≡ s
unfolding cmd_unlink_bytes cmd_unlink_of
cmd_unlink_bytes-cmd_unlink_of s n h =
    rw (words_bytes-words_of 6 (drop 4 s) (omega (arith, length-drop 4 s)) (All-drop IsByte 4 s h))
      (be32_split s (omega arith) h)

pub ret_unlink_bytes-ret_unlink_of :
    (s : List ℕ) → length s ≡ 28 → All IsByte s → ret_unlink_bytes (ret_unlink_of s) ≡ s
unfolding ret_unlink_bytes ret_unlink_of
ret_unlink_bytes-ret_unlink_of s n h =
    rw (words_bytes-words_of 6 (drop 4 s) (omega (arith, length-drop 4 s)) (All-drop IsByte 4 s h))
      (be32_split s (omega arith) h)

pub length-words_of : (n : ℕ) (s : List ℕ) → length (words_of n s) ≡ n
unfolding words_of
length-words_of zero s = refl
length-words_of (suc n) s = ap suc (length-words_of n (drop 4 s))

words_of-IsU32 : (n : ℕ) (s : List ℕ) → All IsByte s → All IsU32 (words_of n s)
unfolding words_of
words_of-IsU32 zero s h = tt
words_of-IsU32 (suc n) s h = (u32_of-IsU32 s h, words_of-IsU32 n (drop 4 s) (All-drop IsByte 4 s h))

-- The words that `basic_of` and the like read are in range.
module _ (s : List ℕ) (h : All IsByte s) where
  second : All IsByte (drop 4 s)
  second = All-drop IsByte 4 s h

  third : All IsByte (drop 4 (drop 4 s))
  third = All-drop IsByte 4 (drop 4 s) second

  fourth : All IsByte (drop 4 (drop 4 (drop 4 s)))
  fourth = All-drop IsByte 4 (drop 4 (drop 4 s)) third

  fifth : All IsByte (drop 4 (drop 4 (drop 4 (drop 4 s))))
  fifth = All-drop IsByte 4 (drop 4 (drop 4 (drop 4 s))) fourth

  -- Structures decoded from bytes are valid.
  pub basic_of-BasicIsValid : BasicIsValid (basic_of s)
  unfolding basic_of
  basic_of-BasicIsValid = record {
    command = u32_of-IsU32 s h;
    seqnum = u32_of-IsU32 _ second;
    devid = u32_of-IsU32 _ third;
    direction = u32_of-IsU32 _ fourth;
    ep = u32_of-IsU32 _ fifth;
  }

  module _ (n : length s ≡ 28) where
    length-setup : length (take 8 (after_five s)) ≡ 8
    length-setup = omega (arith, length-take 8 (after_five s), length-after_five s)

    setup_bytes : All IsByte (take 8 (after_five s))
    setup_bytes = All-take IsByte 8 (after_five s) (All-drop IsByte 4 _ fifth)

    pub cmd_submit_of-CmdSubmitIsValid : CmdSubmitIsValid (cmd_submit_of s)
    unfolding cmd_submit_of
    cmd_submit_of-CmdSubmitIsValid = record {
      transfer_flags = u32_of-IsU32 s h;
      transfer_buffer_length = u32_of-IsU32 _ second;
      start_frame = u32_of-IsU32 _ third;
      number_of_packets = u32_of-IsU32 _ fourth;
      interval = u32_of-IsU32 _ fifth;
      setup_length = length-setup;
      setup_bytes = setup_bytes;
    }

    pub ret_submit_of-RetSubmitIsValid : RetSubmitIsValid (ret_submit_of s)
    unfolding ret_submit_of
    ret_submit_of-RetSubmitIsValid = record {
      status = u32_of-IsU32 s h;
      actual_length = u32_of-IsU32 _ second;
      start_frame = u32_of-IsU32 _ third;
      number_of_packets = u32_of-IsU32 _ fourth;
      error_count = u32_of-IsU32 _ fifth;
      setup_length = length-setup;
      setup_bytes = setup_bytes;
    }

  pub cmd_unlink_of-CmdUnlinkIsValid : CmdUnlinkIsValid (cmd_unlink_of s)
  unfolding cmd_unlink_of
  cmd_unlink_of-CmdUnlinkIsValid = record {
    seqnum = u32_of-IsU32 s h;
    padding_length = length-words_of 6 (drop 4 s);
    padding_words = words_of-IsU32 6 (drop 4 s) second;
  }

  pub ret_unlink_of-RetUnlinkIsValid : RetUnlinkIsValid (ret_unlink_of s)
  unfolding ret_unlink_of
  ret_unlink_of-RetUnlinkIsValid = record {
    status = u32_of-IsU32 s h;
    padding_length = length-words_of 6 (drop 4 s);
    padding_words = words_of-IsU32 6 (drop 4 s) second;
  }
