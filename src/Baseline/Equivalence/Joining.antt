-- ===== src/Baseline/Equivalence/Joining.antt =====
-- What is left of an order joins its own side in the order book and in the baseline.
use limit_order_book_matchin.Base.{
  ℕ, ◌≡◌, refl, sym, ap, ◌∙◌, Bool, true, false, not, ◌&&◌, ltb, arith, if◌then◌else◌,
}
use limit_order_book_matchin.Order.{Order, Side, buy, sell, is_market, is_filled}
use limit_order_book_matchin.PriceMap.{Ptr, push_back}
use limit_order_book_matchin.OrderBook.State.{OrderBook, levels, opposite}
use limit_order_book_matchin.OrderBook.Matching.{Progress, rest_in_book}
use limit_order_book_matchin.Matching.Frame.Scan.{Terms}
use limit_order_book_matchin.Matching.Objects.{rest_in_book-object}
use limit_order_book_matchin.Matching.Priority.{rest_in_book-facing}
use limit_order_book_matchin.Matching.Complete.{joined, rest_in_book-own_side}
use limit_order_book_matchin.Baseline.{
  SimpleOrder, SimpleLevels, BaselineLob, facing_levels, simple_levels, Walking, put_back,
}
use limit_order_book_matchin.Baseline.Agreement.{simple}
use limit_order_book_matchin.Baseline.Level.Round.{is_filled-leaves}
use limit_order_book_matchin.Baseline.Walk.{view_levels, view_levels-same, InWalk}
use limit_order_book_matchin.Baseline.Equivalence.Outer.{same_market, view_levels-push_back}

-- The book as the baseline keeps it, with the id that comes next.
abbrev pub seen : ℕ → OrderBook → BaselineLob
seen next_id b = record {
  bids = view_levels b.object b.bids;
  asks = view_levels b.object b.asks;
  next_id = next_id;
}

pub seen-facing :
    (side : Side) (n : ℕ) (b : OrderBook)
    → facing_levels side (seen n b) ≡ view_levels b.object (levels (opposite side) b)
seen-facing buy n b = refl
seen-facing sell n b = refl

pub seen-own :
    (side : Side) (n : ℕ) (b : OrderBook)
    → simple_levels side (seen n b) ≡ view_levels b.object (levels side b)
seen-own buy n b = refl
seen-own sell n b = refl

put_back-seen :
    (side : Side) (n : ℕ) (b : OrderBook) (facing own : SimpleLevels)
    → view_levels b.object (levels (opposite side) b) ≡ facing
    → view_levels b.object (levels side b) ≡ own
    → put_back side facing own n ≡ seen n b
put_back-seen buy n b facing own e f = rw (sym e, sym f) refl
put_back-seen sell n b facing own e f = rw (sym e, sym f) refl

-- What is left of the order joins its own side in both.
module _ (key : Ptr → ℕ) (order : Ptr) (b : OrderBook) (s : Progress) (t : Walking)
    (limit : is_market (b.object order) ≡ false) where
  abbrev o : Order
  o = b.object order

  abbrev side : Side
  side = o.side

  abbrev pub left : SimpleOrder
  left = record { id = o.id; price = o.price; qty = t.qty }

  module _ (h : InWalk key side order b.object (levels side b) s t) where
    same_side : (s.book.object order).side ≡ side
    same_side = ap (λ (x : Terms). x.side) (h.1.terms_of order)

    same_price : (s.book.object order).price ≡ o.price
    same_price = ap (λ (x : Terms). x.price) (h.1.terms_of order)

    same_id : (s.book.object order).id ≡ o.id
    same_id = ap (λ (x : Terms). x.id) (h.1.terms_of order)

    left-simple : simple (s.book.object order) ≡ left
    left-simple = rw (same_id, same_price, h.1.qty) refl

    joins :
        (not (is_filled (s.book.object order)) && not (is_market (s.book.object order)))
        ≡ ltb 0 t.qty
    joins =
        let market = same_market o (s.book.object order) (h.1.terms_of order) ∙ limit in
        rw (is_filled-leaves (s.book.object order), market, h.1.qty) (ground arith)

    own_before :
        view_levels s.book.object (levels side s.book) ≡ view_levels b.object (levels side b)
    own_before =
        ap (view_levels s.book.object) h.0
        ∙ view_levels-same s.book.object b.object (levels side b) h.1.own_same

    joined-seen :
        view_levels s.book.object (joined side order (s.book.object order) (levels side s.book)) ≡ (
          if ltb 0 t.qty
          then push_back side o.price left (view_levels b.object (levels side b))
          else view_levels b.object (levels side b))
    joined-seen = rw joins (by_left (ltb 0 t.qty))
      where
        by_left :
            (x : Bool)
            → view_levels s.book.object (
                if x
                then push_back side (s.book.object order).price order (levels side s.book)
                else levels side s.book)
              ≡ (if x
                  then push_back side o.price left (view_levels b.object (levels side b))
                  else view_levels b.object (levels side b))
        by_left true =
            view_levels-push_back s.book.object side _ order (levels side s.book)
            ∙ ap
                (λ p.
                  push_back side p (simple (s.book.object order))
                    (view_levels s.book.object (levels side s.book)))
                same_price
            ∙ ap (λ x. push_back side o.price x (view_levels s.book.object (levels side s.book)))
                left-simple
            ∙ ap (push_back side o.price left) own_before
        by_left false = own_before

    -- The two books at the end.
    pub rest_in_book-seen :
        (n : ℕ)
        → put_back side t.facing
            (if ltb 0 t.qty
              then push_back side o.price left (view_levels b.object (levels side b))
              else view_levels b.object (levels side b))
            n
          ≡ seen n (rest_in_book order s.book)
    rest_in_book-seen n =
        let same : (rest_in_book order s.book).object ≡ s.book.object =
          rest_in_book-object order s.book in
        put_back-seen side n (rest_in_book order s.book) _ _
          (ap (λ f. view_levels f (levels (opposite side) (rest_in_book order s.book))) same
            ∙ ap (view_levels s.book.object) (rest_in_book-facing order side s.book same_side)
            ∙ h.1.looks)
          (ap (λ f. view_levels f (levels side (rest_in_book order s.book))) same
            ∙ ap (view_levels s.book.object) (rest_in_book-own_side side order s.book same_side)
            ∙ joined-seen)
