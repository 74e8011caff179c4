-- ===== src/Group/Shows.antt =====
-- Which group element the tuple that a formula returns stands for.
use ellipticcurves.Prelude.{ℕ, ◌+◌, ◌≡◌, refl, sym, ap, ap₂, ◌∙◌}
use ellipticcurves.Prelude.Int.{ℤ, pos, ◌+ℤ◌, neg_ℤ}
use ellipticcurves.Group.{PointOps, AbelianGroup, Represents, nmul, zmul}
use ellipticcurves.Group.Multiple.{nmul-one, nmul-add, zmul-add, zmul-pos, zmul-neg_ℤ}

module _ {J G : Type 0} {ec : PointOps J} {grp : AbelianGroup G} (rep : Represents ec grp) where
  -- `X` is a tuple of the curve, and it is the point `h`.
  pub record Shows (X : J) (h : G) : Type 0 where
    pub on : rep.On X
    pub value : rep.view X ≡ h

  pub Shows-eq : {X : J} {a b : G} → Shows X a → a ≡ b → Shows X b
  Shows-eq s e = record { on = s.on; value = s.value ∙ e }

  pub Shows-infinity : Shows ec.infinity grp.zero_point
  Shows-infinity = record { on = rep.On-infinity; value = rep.view-infinity }

  pub Shows-add : (X Y : J) {a b : G} → Shows X a → Shows Y b → Shows (ec.add X Y) (grp.plus a b)
  Shows-add X Y s t = record {
    on = rep.On-add X Y s.on t.on;
    value = rep.view-add X Y s.on t.on ∙ ap₂ grp.plus s.value t.value;
  }

  pub Shows-double : (X : J) {a : G} → Shows X a → Shows (ec.double X) (grp.plus a a)
  Shows-double X s = record {
    on = rep.On-double X s.on;
    value = rep.view-double X s.on ∙ ap₂ grp.plus s.value s.value;
  }

  pub Shows-negate : (X : J) {a : G} → Shows X a → Shows (ec.negate X) (grp.minus a)
  Shows-negate X s = record {
    on = rep.On-negate X s.on;
    value = rep.view-negate X s.on ∙ ap grp.minus s.value;
  }

  -- `X` is n * g, and `X` is k * g for an integer `k`.
  pub record Times (g : G) (X : J) (n : ℕ) : Type 0 where
    pub shows : Shows X (nmul grp n g)

  pub record ZTimes (g : G) (X : J) (k : ℤ) : Type 0 where
    pub shows : Shows X (zmul grp k g)

  pub Times-eq : {g : G} {X : J} {m n : ℕ} → Times g X m → m ≡ n → Times g X n
  Times-eq {g} s e = record { shows = Shows-eq s.shows (ap (λ k. nmul grp k g) e) }

  pub Times-one : {g : G} {X : J} → Shows X g → Times g X 1
  Times-one {g} s = record { shows = Shows-eq s (sym (nmul-one grp g)) }

  pub Times-infinity : (g : G) → Times g ec.infinity 0
  Times-infinity g = record { shows = Shows-eq Shows-infinity (unfold nmul in refl) }

  pub Times-add :
      {g : G} (X Y : J) {m n : ℕ} → Times g X m → Times g Y n → Times g (ec.add X Y) (m + n)
  Times-add {g} X Y s t = record {
    shows = Shows-eq (Shows-add X Y s.shows t.shows) (sym (nmul-add grp _ _ g));
  }

  pub Times-double : {g : G} (X : J) {m : ℕ} → Times g X m → Times g (ec.double X) (m + m)
  Times-double {g} X s = record {
    shows = Shows-eq (Shows-double X s.shows) (sym (nmul-add grp _ _ g));
  }

  pub ZTimes-eq : {g : G} {X : J} {i j : ℤ} → ZTimes g X i → i ≡ j → ZTimes g X j
  ZTimes-eq {g} s e = record { shows = Shows-eq s.shows (ap (λ k. zmul grp k g) e) }

  pub ZTimes-Times : {g : G} {X : J} {n : ℕ} → Times g X n → ZTimes g X (pos n)
  ZTimes-Times {g} s = record { shows = Shows-eq s.shows (sym (zmul-pos grp _ g)) }

  pub Times-ZTimes : {g : G} {X : J} {n : ℕ} → ZTimes g X (pos n) → Times g X n
  Times-ZTimes {g} s = record { shows = Shows-eq s.shows (zmul-pos grp _ g) }

  pub ZTimes-add :
      {g : G} (X Y : J) {i j : ℤ} → ZTimes g X i → ZTimes g Y j → ZTimes g (ec.add X Y) (i +ℤ j)
  ZTimes-add {g} X Y s t = record {
    shows = Shows-eq (Shows-add X Y s.shows t.shows) (sym (zmul-add grp _ _ g));
  }

  pub ZTimes-double : {g : G} (X : J) {i : ℤ} → ZTimes g X i → ZTimes g (ec.double X) (i +ℤ i)
  ZTimes-double {g} X s = record {
    shows = Shows-eq (Shows-double X s.shows) (sym (zmul-add grp _ _ g));
  }

  pub ZTimes-negate : {g : G} (X : J) {i : ℤ} → ZTimes g X i → ZTimes g (ec.negate X) (neg_ℤ i)
  ZTimes-negate {g} X s = record {
    shows = Shows-eq (Shows-negate X s.shows) (sym (zmul-neg_ℤ grp _ g));
  }
