-- ===== src/Server/Replies.antt =====
-- The replies of the echo server of crates/easy-usb-core/src/protocol/server.rs.
use easy_usb.Base.{
  ◌∷◌, ℕ, ◌≤◌, ◌≡◌, refl, ◌∙◌, List, [], Option, none, some, length, arith, inl, inr, ◌⊎◌,
  Bool-cases, ◌==◌, if◌then◌else◌,
}
use easy_usb.Bytes.Words.{is_positive}
use easy_usb.Wire.{UsbipHeaderCmdSubmit}
use easy_usb.Wire.Constants.{ret_submit, cmd_unlink}
use easy_usb.Wire.Union.{as_cmd_submit, of_ret_submit, of_ret_unlink, as_ret_submit-of_ret_submit}
use easy_usb.Wire.Header.{UsbipHeader}
use easy_usb.Codec.{max_payload_size}
use easy_usb.Codec.Message.{
  HeaderIsValid, IsEncodable, PayloadMatches, PayloadIsAccepted, length-carried, announced, carried,
  packets, HasDirection,
}
use easy_usb.Wire.Constants.{usbip_dir_in, ret_unlink}
use easy_usb.Server.{echo_len, submit_reply, unlink_reply}

-- The echo server's contract: under the request's number, device and endpoint, a success of the announced
-- length with the request's setup bytes.
abbrev pub echo_of : UsbipHeader → UsbipHeader
echo_of h = record {
  base = record {
    command = ret_submit;
    seqnum = h.base.seqnum;
    devid = h.base.devid;
    direction = usbip_dir_in;
    ep = h.base.ep;
  };
  u = of_ret_submit (record {
    status = 0;
    actual_length = announced h;
    start_frame = 0;
    number_of_packets = 0;
    error_count = 0;
    setup = (as_cmd_submit h.u).setup;
  });
}

-- And to an UNLINK: the same basic header but for the command, a status of 0, and no padding.
abbrev pub unlink_echo_of : UsbipHeader → UsbipHeader
unlink_echo_of h = record {
  base = record {
    command = ret_unlink;
    seqnum = h.base.seqnum;
    devid = h.base.devid;
    direction = h.base.direction;
    ep = h.base.ep;
  };
  u = of_ret_unlink (record { status = 0; padding = 0 ∷ 0 ∷ 0 ∷ 0 ∷ 0 ∷ 0 ∷ [] });
}

pub unlink_reply-unlink_echo_of : (h : UsbipHeader) → unlink_reply h ≡ unlink_echo_of h
unfolding unlink_reply
unlink_reply-unlink_echo_of h = refl

-- The reply to a CMD_SUBMIT.
module _ (h : UsbipHeader) (p : Option (List ℕ)) (m : PayloadMatches h p) where
  abbrev pub reply : UsbipHeader
  reply = submit_reply h (as_cmd_submit h.u) (carried h p)

  echo_len-carried : echo_len (carried h p) ≡ announced h
  unfolding echo_len
  echo_len-carried = len p m
    where
      len : (q : Option (List ℕ)) → PayloadMatches h q → echo_len (carried h q) ≡ announced h
      len none m = ground arith
      len (some bytes) m = ground arith

  pub announced_small : announced h ≤ max_payload_size
  announced_small = (length-carried h p m).1

  announced-submit_reply :
      announced reply ≡ (if is_positive (echo_len (carried h p)) then echo_len (carried h p) else 0)
  unfolding announced submit_reply
  announced-submit_reply = rw as_ret_submit-of_ret_submit refl

  -- It is the answer of the echo server's contract.
  pub submit_reply-echo_of : reply ≡ echo_of h
  unfolding submit_reply
  submit_reply-echo_of = rw echo_len-carried refl

  pub announced-reply : announced reply ≡ announced h
  announced-reply = announced-submit_reply ∙ rw echo_len-carried (ground (arith, announced_small))

  pub carried-reply : carried reply (carried h p) ≡ carried h p
  carried-reply = rw announced-reply (ground arith)

  pub reply-PayloadMatches : PayloadMatches reply (carried h p)
  reply-PayloadMatches = rw announced-reply (matches p m)
    where
      matches :
          (q : Option (List ℕ))
          → PayloadMatches h q
          → (announced h ≡ 0)
            ⊎ ((bytes : List ℕ) × (carried h q ≡ some bytes)
                × (length bytes ≡ announced h)
                × (announced h ≤ max_payload_size))
      matches q (inl z) = inl z
      matches q (inr (bytes, e, n, small)) = elim (Bool-cases (announced h == 0)) [
        | inl z ↦ inl (ground (arith, z))
        | inr z ↦ inr (bytes, rw z e, n, small)
      ]

  pub reply-IsEncodable : IsEncodable reply (carried h p)
  unfolding packets submit_reply
  reply-IsEncodable = record {
    direction = inr refl;
    command = inr (inl refl);
    bulk = rw as_ret_submit-of_ret_submit refl;
    payload = accepted reply (carried h p) reply-PayloadMatches;
  }
    where
      accepted :
          (g : UsbipHeader) (q : Option (List ℕ)) → PayloadMatches g q → PayloadIsAccepted g q
      accepted g q (inl z) = inl z
      accepted g q (inr (bytes, e, n, small)) = inr (bytes, e, omega arith)

  pub reply-IsValid : HeaderIsValid h → HeaderIsValid reply
  unfolding submit_reply of_ret_submit as_cmd_submit
  reply-IsValid v = record {
    base = record {
      command = omega arith;
      seqnum = v.base.seqnum;
      devid = v.base.devid;
      direction = omega arith;
      ep = v.base.ep;
    };
    u = record {
      word0 = omega arith;
      word1 = omega (arith, echo_len-carried, announced_small);
      word2 = omega arith;
      word3 = omega arith;
      word4 = omega arith;
      tail_length = v.u.tail_length;
      tail_bytes = v.u.tail_bytes;
    };
  }

-- The reply to a CMD_UNLINK.
pub unlink_reply-IsEncodable :
    (h : UsbipHeader) → HasDirection h.base.direction → IsEncodable (unlink_reply h) none
unfolding unlink_reply packets announced
unlink_reply-IsEncodable h d = record {
  direction = d;
  command = inr (inr (inr refl));
  bulk = refl;
  payload = inl refl;
}

pub unlink_reply-IsValid : (h : UsbipHeader) → HeaderIsValid h → HeaderIsValid (unlink_reply h)
unfolding unlink_reply of_ret_unlink
unlink_reply-IsValid h v = record {
  base = record {
    command = omega arith;
    seqnum = v.base.seqnum;
    devid = v.base.devid;
    direction = v.base.direction;
    ep = v.base.ep;
  };
  u = record {
    word0 = omega arith;
    word1 = omega arith;
    word2 = omega arith;
    word3 = omega arith;
    word4 = omega arith;
    tail_length = refl;
    tail_bytes = omega arith;
  };
}

-- Neither reply has packets, at the place where a client looks for them.
pub submit_reply_bulk :
    (h : UsbipHeader) (c : UsbipHeaderCmdSubmit) (q : Option (List ℕ))
    → (submit_reply h c q).u.word3 ≡ 0
unfolding submit_reply of_ret_submit
submit_reply_bulk h c q = refl

pub unlink_reply_bulk : (h : UsbipHeader) → (unlink_reply h).u.word3 ≡ 0
unfolding unlink_reply of_ret_unlink
unlink_reply_bulk h = refl

pub announced-unlink_reply : (h : UsbipHeader) → announced (unlink_reply h) ≡ 0
unfolding unlink_reply announced
announced-unlink_reply h = refl

pub announced-cmd_unlink : (h : UsbipHeader) → h.base.command ≡ cmd_unlink → announced h ≡ 0
unfolding announced
announced-cmd_unlink h e = rw e refl

pub unlink-IsEncodable :
    (h : UsbipHeader)
    → HasDirection h.base.direction
    → h.base.command ≡ cmd_unlink
    → IsEncodable h none
unfolding packets
unlink-IsEncodable h d c = record {
  direction = d;
  command = inr (inr (inl c));
  bulk = rw c refl;
  payload = inl (announced-cmd_unlink h c);
}
