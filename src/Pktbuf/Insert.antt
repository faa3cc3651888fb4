-- ===== src/Pktbuf/Insert.antt =====
-- A chain inserted at the front of a packet, and packets that a draw of blocks leaves alone.
use clean_os.Base.{
  ℕ, ◌+◌, ◌≡◌, refl, sym, ap, subst, ◌∙◌, List, [], ◌∷◌, ◌++◌, append_assoc, All, NotIn, Distinct,
  Distinct-of_append, All-map, apart_flip, arith, ==_refl, ne→==,
}
use clean_os.Pktbuf.Store.{Pool, Buf, insert_after}
use clean_os.Pktbuf.Chain.{insert_behind, insert_first}
use clean_os.Pktbuf.Content.{sizes, IsPacket, Agree}
use clean_os.Pktbuf.Taken.{IsPacket-Agree}
use clean_os.Pktbuf.Draw.{Drawn, Refused}

insert_after-mid :
    (pre x : ℕ) (done old : List ℕ)
    → NotIn pre done
    → insert_after pre x (done ++ (pre ∷ old)) ≡ done ++ (pre ∷ x ∷ old)
unfolding insert_after
insert_after-mid pre x [] old out = rw (==_refl pre) refl
insert_after-mid pre x (z ∷ done) old (ne, out) =
    rw (ne→== z pre (λ e. ne (sym e))) (ap (λ l. z ∷ l) (insert_after-mid pre x done old out))

-- A packet with this size and these blocks.
abbrev pub with_blks : Buf → ℕ → List ℕ → Buf
with_blks buf total xs = record buf { blk_list = xs; total_size = total }

insert_behind_lem :
    (p : Pool) (buf : Buf) (total pre : ℕ) (done xs old : List ℕ)
    → Distinct (done ++ (pre ∷ xs))
    → insert_behind p (with_blks buf total (done ++ (pre ∷ old))) pre xs
      ≡ with_blks buf (total + sizes p.blk xs) (done ++ (pre ∷ (xs ++ old)))
unfolding insert_behind
insert_behind_lem p buf total pre done [] old d =
    ap (λ t. with_blks buf t (done ++ (pre ∷ old))) (omega arith)
insert_behind_lem p buf total pre done (x ∷ xs) old d =
    let (d₁, d₂, a) = Distinct-of_append done (pre ∷ x ∷ xs) d in
    let out = (apart_flip done (pre ∷ x ∷ xs) a).0 in
    let t = total + (p.blk x).size in
    ap (λ l. insert_behind p (with_blks buf t l) x xs)
      (insert_after-mid pre x done old out ∙ sym (append_assoc done (pre ∷ []) (x ∷ old)))
    ∙ insert_behind_lem p buf t x (done ++ (pre ∷ [])) xs old
        (subst Distinct (sym (append_assoc done (pre ∷ []) (x ∷ xs))) d)
    ∙ ap (with_blks buf (t + sizes p.blk xs)) (append_assoc done (pre ∷ []) (x ∷ (xs ++ old)))
    ∙ ap (λ n. with_blks buf n (done ++ (pre ∷ x ∷ (xs ++ old)))) (omega arith)

-- Inserting a chain at the front puts its blocks there in order.
pub insert_first_lem :
    (p : Pool) (buf : Buf) (total : ℕ) (xs old : List ℕ)
    → Distinct xs
    → insert_first p (with_blks buf total old) xs
      ≡ with_blks buf (total + sizes p.blk xs) (xs ++ old)
unfolding insert_first
insert_first_lem p buf total [] old d = ap (λ t. with_blks buf t old) (omega arith)
insert_first_lem p buf total (x ∷ xs) old d =
    insert_behind_lem p buf (total + (p.blk x).size) x [] xs old d
    ∙ ap (λ n. with_blks buf n (x ∷ (xs ++ old))) (omega arith)

-- A draw leaves a packet that it does not touch as it is.
pub Drawn-keeps :
    (p p' : Pool) (n t : ℕ) (c xs : List ℕ)
    → Drawn p [] n c p'
    → IsPacket p t xs
    → IsPacket p' t xs × Agree p.blk p'.blk xs × All (λ x. NotIn x c) xs
Drawn-keeps p p' n t c xs r v =
    let pick = λ (y : ℕ) (h : NotIn y p.free_blks). r.keeps y h in
    let same =
      All-map (λ y. NotIn y p.free_blks) (λ y. p'.blk y ≡ p.blk y) (λ y h. (pick y h).0) xs
        v.apart in
    let free =
      All-map (λ y. NotIn y p.free_blks) (λ y. NotIn y p'.free_blks) (λ y h. (pick y h).1) xs
        v.apart in
    let out =
      All-map (λ y. NotIn y p.free_blks) (λ y. NotIn y c) (λ y h. (pick y h).2 tt) xs v.apart in
    (IsPacket-Agree p' v same r.packet.free_distinct free, same, out)

pub Refused-keeps :
    (p p' : Pool) (n t : ℕ) (c xs : List ℕ)
    → Refused p [] n c p'
    → IsPacket p t xs
    → IsPacket p' t xs × Agree p.blk p'.blk xs
Refused-keeps p p' n t c xs r v =
    let same =
      All-map (λ y. NotIn y p.free_blks) (λ y. p'.blk y ≡ p.blk y) (λ y h. (r.keeps y h).0) xs
        v.apart in
    let free =
      All-map (λ y. NotIn y p.free_blks) (λ y. NotIn y p'.free_blks) (λ y h. (r.keeps y h).1 tt) xs
        v.apart in
    (IsPacket-Agree p' v same r.distinct free, same)
