-- ===== src/Multiagent/Announce/Newest.antt =====
-- Sequences of deliveries and a drain (pkg/multiagent/announce.go).
use aetherclaw.Common.{
  drop-append, ℕ, zero, suc, ◌-◌, ◌≤◌, ◌<◌, ◌≡◌, refl, sym, ap, ◌∙◌, subst, inl, inr, true, List,
  [], ◌∷◌, ◌++◌, append-nil, append_assoc, arith, ltb, if◌then◌else◌, lt→ltb, ◌==◌, nat_key, eq_iff,
  Bool-cases, Option-cases, length, drop, length-append, length-drop,
}
use aetherclaw.Common.Text.{Text, text_key}
use aetherclaw.Common.Dict.{get, get-put}
use aetherclaw.Multiagent.Announce.{
  Announcement, Announcer, new_announcer, stamp, get_or_create_chan, send, deliver, drain, pending,
}

-- The last n elements.
abbrev pub last_n : {A : Type 0} → ℕ → List A → List A
last_n n xs = drop (length xs - n) xs

last_n-nil : {A : Type 0} (n : ℕ) → last_n {A = A} n [] ≡ []
last_n-nil n = let e : 0 - n ≡ 0 = omega arith in rw e refl

-- A delivery to a session at a time.
pub record Delivery (O : Type 0) : Type 0 where
  pub time : ℕ
  pub target : Text
  pub announcement : Announcement O

drop_one-drop : {A : Type 0} (n : ℕ) (xs : List A) → drop 1 (drop n xs) ≡ drop (suc n) xs
drop_one-drop zero xs = refl
drop_one-drop (suc n) [] = refl
drop_one-drop (suc n) (x ∷ xs) = drop_one-drop n xs

module _ {O : Type 0} where
  unfoldable pub deliver_all : List (Delivery O) → Announcer O → Announcer O
  deliver_all [] a = a
  deliver_all (d ∷ ds) a = deliver_all ds (deliver d.time d.target d.announcement a)

  -- what was delivered to a session, as it was stamped
  abbrev pub addressed : Text → List (Delivery O) → List (Announcement O)
  addressed key [] = []
  addressed key (d ∷ ds) =
      let rest = addressed key ds in
      if d.target == key then stamp d.time d.announcement ∷ rest else rest

  send-last_n :
      (n : ℕ) (x : Announcement O) (xs : List (Announcement O))
      → 0 < n
      → send n x (last_n n xs) ≡ last_n n (xs ++ x ∷ [])
  unfolding send
  send-last_n n x xs pos = elim (Bool-cases (ltb (length (last_n n xs)) n)) [
    | inl e ↦ rw e (
        let short : length xs < n = ground (arith, length-drop (length xs - n) xs) in
        let a : length xs - n ≡ 0 = omega arith in
        let b : length (xs ++ x ∷ []) - n ≡ 0 = omega (arith, length-append xs (x ∷ [])) in
        rw (a, b) refl)
    | inr e ↦
        let long : n ≤ length xs = ground (arith, length-drop (length xs - n) xs) in
        let room : ltb (length (drop 1 (last_n n xs))) n ≡ true =
          lt→ltb _ _ (omega (arith, length-drop 1 (last_n n xs), length-drop (length xs - n) xs)) in
        let count : length (xs ++ x ∷ []) - n ≡ suc (length xs - n) =
          omega (arith, length-append xs (x ∷ [])) in
        rw (e, room, count)
          (ap (λ ys. ys ++ x ∷ []) (drop_one-drop (length xs - n) xs)
            ∙ sym (drop-append (suc (length xs - n)) xs (x ∷ []) (omega arith)))
  ]

  get_or_create-deliver :
      (d : Delivery O) (key : Text) (a : Announcer O)
      → get_or_create_chan key (deliver d.time d.target d.announcement a) ≡ (
          if d.target == key
          then send a.buf_size (stamp d.time d.announcement) (get_or_create_chan d.target a)
          else get_or_create_chan key a)
  unfolding get_or_create_chan deliver
  get_or_create-deliver d key a = elim (Bool-cases (d.target == key)) [
    | inl e ↦ rw (get-put d.target key _ a.channels, e) refl
    | inr e ↦ rw (get-put d.target key _ a.channels, e) refl
  ]

  deliver_all-last_n :
      (ds : List (Delivery O)) (key : Text) (a : Announcer O) (xs : List (Announcement O))
      → 0 < a.buf_size
      → get_or_create_chan key a ≡ last_n a.buf_size xs
      → get_or_create_chan key (deliver_all ds a) ≡ last_n a.buf_size (xs ++ addressed key ds)
  unfolding deliver_all deliver
  deliver_all-last_n [] key a xs pos h = h ∙ sym (ap (last_n a.buf_size) (append-nil xs))
  deliver_all-last_n (d ∷ ds) key a xs pos h = elim (Bool-cases (d.target == key)) [
    | inl e ↦
        rw (e, sym (append_assoc xs (stamp d.time d.announcement ∷ []) (addressed key ds)))
          (deliver_all-last_n ds key (deliver d.time d.target d.announcement a)
            (xs ++ stamp d.time d.announcement ∷ []) pos
            (get_or_create-deliver d key a
              ∙ rw
                  (
                    e,
                    subst (λ k. get_or_create_chan k a ≡ last_n a.buf_size xs)
                        (sym ((eq_iff d.target key).0 e)) h,
                  )
                  (send-last_n a.buf_size (stamp d.time d.announcement) xs pos)))
    | inr e ↦ rw e (
        deliver_all-last_n ds key (deliver d.time d.target d.announcement a) xs pos
          (get_or_create-deliver d key a ∙ rw e h))
  ]

  drain-pending_of : (key : Text) (a : Announcer O) → (drain key a).0 ≡ get_or_create_chan key a
  unfolding drain get_or_create_chan
  drain-pending_of key a = elim (Option-cases (get key a.channels)) [
    | inl n ↦ rw n refl
    | inr (ch, s) ↦ rw s refl
  ]

  pending-length :
      (key : Text) (a : Announcer O) → pending key a ≡ length (get_or_create_chan key a)
  unfolding pending get_or_create_chan
  pending-length key a = refl

  -- After any deliveries to any sessions, a drain of a session returns the announcements delivered
  -- to it, stamped and in order, of which the newest are kept, as many as the buffer holds; as
  -- many are pending as it returns.
  pub drain-last_n :
      (buf_size : ℕ) (ds : List (Delivery O)) (key : Text)
      → let a : Announcer O = new_announcer buf_size in
        ((drain key (deliver_all ds a)).0 ≡ last_n a.buf_size (addressed key ds))
        × (pending key (deliver_all ds a) ≡ length (drain key (deliver_all ds a)).0)
  drain-last_n buf_size ds key =
      let a : Announcer O = new_announcer buf_size in
      (
        drain-pending_of key (deliver_all ds a)
            ∙ deliver_all-last_n ds key a [] (filled buf_size) (empty buf_size),
        pending-length key (deliver_all ds a)
            ∙ ap length (sym (drain-pending_of key (deliver_all ds a))),
      )
    where
      filled : (n : ℕ) → 0 < (new_announcer {O = O} n).buf_size
      filled zero = unfold new_announcer in omega arith
      filled (suc n) = unfold new_announcer in omega arith

      empty :
          (n : ℕ)
          → get_or_create_chan key (new_announcer {O = O} n)
            ≡ last_n (new_announcer {O = O} n).buf_size []
      empty zero = unfold new_announcer get_or_create_chan get in sym (last_n-nil 32)
      empty (suc n) = unfold new_announcer get_or_create_chan get in sym (last_n-nil (suc n))
