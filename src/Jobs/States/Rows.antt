-- ===== src/Jobs/States/Rows.antt =====
-- Writing rows over and appending one keeps ids distinct and advances each row.
use inryeok_bot.Prelude.{
  ◌+◌, ◌<◌, ◌≡◌, refl, sym, ap, subst, ◌∙◌, ◌≢◌, inl, inr, Bool, true, false, List, [], ◌∷◌, ◌++◌,
  arith, if◌then◌else◌, ◌==◌, ==_iff, update_where, map, All, All-imp, All-append, All-update_where,
  Has,
}
use inryeok_bot.Jobs.Model.{ReviewJob, AdminAuditLog, Database}
use inryeok_bot.Jobs.Unique.{HasUniqueIds, head-ne, update_where_absent}
use inryeok_bot.Jobs.States.{Advances, Follows, Grows, IsWellFormed}

pub Advances-refl : (j : ReviewJob) → Advances j j
Advances-refl j = ground arith

pub Advances-Follows : (a b : ReviewJob) → Advances a b → Follows a b
Advances-Follows a b h = record {
  same_id = h.same_id;
  same_key = h.same_key;
  same_execution = h.same_execution;
  more_attempts = h.more_attempts;
  settled = λ t. ground arith;
}

pub Follows-refl : (j : ReviewJob) → Follows j j
Follows-refl j = Advances-Follows j j (Advances-refl j)

pub Follows-trans : (a b c : ReviewJob) → Follows a b → Follows b c → Follows a c
Follows-trans a b c h k = record {
  same_id = k.same_id ∙ h.same_id;
  same_key = k.same_key ∙ h.same_key;
  same_execution = k.same_execution ∙ h.same_execution;
  more_attempts = omega arith;
  settled = λ t. k.settled (rw (h.settled t) t) ∙ h.settled t;
}

module _ (R : ReviewJob → ReviewJob → Type 0) where
  pub Grows-refl : ((j : ReviewJob) → R j j) → (xs : List ReviewJob) → Grows R xs xs
  Grows-refl r [] = tt
  Grows-refl r (x ∷ xs) = (r x, Grows-refl r xs)

  pub Grows-append : (xs ys zs : List ReviewJob) → Grows R xs ys → Grows R xs (ys ++ zs)
  Grows-append [] ys zs h = tt
  Grows-append (x ∷ xs) [] zs h = absurd h
  Grows-append (x ∷ xs) (y ∷ ys) zs h = (h.0, Grows-append xs ys zs h.1)

  pub Grows-trans :
      ((a b c : ReviewJob) → R a b → R b c → R a c)
      → (xs ys zs : List ReviewJob) → Grows R xs ys
      → Grows R ys zs
      → Grows R xs zs
  Grows-trans t [] ys zs h k = tt
  Grows-trans t (x ∷ xs) [] zs h k = absurd h
  Grows-trans t (x ∷ xs) (y ∷ ys) [] h k = absurd k
  Grows-trans t (x ∷ xs) (y ∷ ys) (z ∷ zs) h k = (t x y z h.0 k.0, Grows-trans t xs ys zs h.1 k.1)

  pub Grows-update :
      (p : ReviewJob → Bool) (f : ReviewJob → ReviewJob) (xs : List ReviewJob)
      → ((x : ReviewJob) → R x (if p x then f x else x))
      → Grows R xs (update_where p f xs)
  Grows-update p f [] h = tt
  Grows-update p f (x ∷ xs) h = (h x, Grows-update p f xs h)

pub Grows-imp :
    (R S : ReviewJob → ReviewJob → Type 0) (xs ys : List ReviewJob)
    → ((a b : ReviewJob) → R a b → S a b)
    → Grows R xs ys
    → Grows S xs ys
Grows-imp R S [] ys i h = tt
Grows-imp R S (x ∷ xs) [] i h = absurd h
Grows-imp R S (x ∷ xs) (y ∷ ys) i h = (i x y h.0, Grows-imp R S xs ys i h.1)

-- An update that keeps the id of each row that it writes.
abbrev pub KeepsIds : (ReviewJob → Bool) → (ReviewJob → ReviewJob) → Type 0
KeepsIds p f = (x : ReviewJob) → (if p x then f x else x).id ≡ x.id

pub update-HasUniqueIds :
    (p : ReviewJob → Bool) (f : ReviewJob → ReviewJob) (xs : List ReviewJob)
    → KeepsIds p f
    → HasUniqueIds xs
    → HasUniqueIds (update_where p f xs)
update-HasUniqueIds p f [] k u = tt
update-HasUniqueIds p f (x ∷ xs) k u = (
  All-update_where (λ y. y.id ≢ x.id) (λ y. y.id ≢ (if p x then f x else x).id) p f xs
      (λ y ne e. ne (sym (k y) ∙ e ∙ k x)) u.0,
  update-HasUniqueIds p f xs k u.1,
)

pub update-IsWellFormed :
    (p : ReviewJob → Bool) (f : ReviewJob → ReviewJob) (db : Database)
    → KeepsIds p f
    → IsWellFormed db
    → IsWellFormed (record db { jobs = update_where p f db.jobs })
update-IsWellFormed p f db k w = record {
  unique = update-HasUniqueIds p f db.jobs k w.unique;
  below =
      All-update_where (λ j. j.id < db.next_job_id) (λ j. j.id < db.next_job_id) p f db.jobs
        (λ x h. rw (k x) h) w.below;
}

append-HasUniqueIds :
    (new : ReviewJob) (xs : List ReviewJob)
    → All (λ j. j.id < new.id) xs
    → HasUniqueIds xs
    → HasUniqueIds (xs ++ new ∷ [])
append-HasUniqueIds new [] b u = (tt, tt)
append-HasUniqueIds new (x ∷ xs) b u = (
  All-append (λ y. y.id ≢ x.id) xs (new ∷ []) u.0 ((λ e. omega arith), tt),
  append-HasUniqueIds new xs b.1 u.1,
)

-- A new row under the next id.
pub append-IsWellFormed :
    (new : ReviewJob) (db db' : Database)
    → new.id ≡ db.next_job_id
    → db'.jobs ≡ db.jobs ++ new ∷ []
    → db'.next_job_id ≡ db.next_job_id + 1
    → IsWellFormed db
    → IsWellFormed db'
append-IsWellFormed new db db' e grown up w = record {
  unique = rw grown (append-HasUniqueIds new db.jobs (rw e w.below) w.unique);
  below =
      rw (grown, up)
        (All-append (λ j. j.id < db.next_job_id + 1) db.jobs (new ∷ [])
          (All-imp (λ j. j.id < db.next_job_id) (λ j. j.id < db.next_job_id + 1) db.jobs
            (λ x h. omega arith) w.below)
          (omega arith, tt));
}

-- One row that is written over.
abbrev put : ReviewJob → List ReviewJob → List ReviewJob
put new xs = update_where (λ x. x.id == new.id) (λ _. new) xs

pub put-KeepsIds : (new : ReviewJob) → KeepsIds (λ x. x.id == new.id) (λ _. new)
put-KeepsIds new x = ground arith

pub put-Advances :
    (old new : ReviewJob) (xs : List ReviewJob)
    → HasUniqueIds xs
    → Has old xs
    → Advances old new
    → Grows Advances xs (put new xs)
put-Advances old new [] u m a = absurd m
put-Advances old new (x ∷ xs) u (inl same) a =
    let at : x.id ≡ new.id = ap (λ (j : ReviewJob). j.id) same ∙ sym a.same_id in
    let rest : All (λ y. y.id ≢ new.id) xs = subst (λ k. All (λ y. y.id ≢ k) xs) at u.0 in
    (
      subst (λ b. Advances x (if b then new else x)) (sym ((==_iff x.id new.id).1 at))
          (subst (λ z. Advances z new) (sym same) a),
      subst (λ ys. Grows Advances xs ys) (sym (update_where_absent new.id (λ _. new) xs rest))
          (Grows-refl Advances Advances-refl xs),
    )
put-Advances old new (x ∷ xs) u (inr m) a =
    let apart : x.id ≢ new.id = λ e. head-ne x old xs u m (e ∙ a.same_id) in
    let miss : (x.id == new.id) ≡ false = ground arith in
    (
      subst (λ b. Advances x (if b then new else x)) (sym miss) (Advances-refl x),
      put-Advances old new xs u.1 m a,
    )

-- What one operation owes: its rows advance, and ids stay distinct.
abbrev pub Sound : Database → Database → Type 0
Sound db db' = Grows Advances db.jobs db'.jobs × IsWellFormed db'

pub Sound-refl : (db : Database) → IsWellFormed db → Sound db db
Sound-refl db w = (Grows-refl Advances Advances-refl db.jobs, w)

pub Sound-put :
    (old new : ReviewJob) (db : Database)
    → IsWellFormed db
    → Has old db.jobs
    → Advances old new
    → Sound db (record db { jobs = update_where (λ x. x.id == new.id) (λ _. new) db.jobs })
Sound-put old new db w m a = (
  put-Advances old new db.jobs w.unique m a,
  update-IsWellFormed (λ x. x.id == new.id) (λ _. new) db (put-KeepsIds new) w,
)

pub Sound-update :
    (p : ReviewJob → Bool) (f : ReviewJob → ReviewJob) (db : Database)
    → ((x : ReviewJob) → Advances x (if p x then f x else x))
    → IsWellFormed db
    → Sound db (record db { jobs = update_where p f db.jobs })
Sound-update p f db a w =
    (Grows-update Advances p f db.jobs a, update-IsWellFormed p f db (λ x. (a x).same_id) w)

-- Rows are updated, and a new one is added under the next id.
pub Sound-update-append :
    (p : ReviewJob → Bool) (f : ReviewJob → ReviewJob) (new : ReviewJob) (logs : List AdminAuditLog)
    (db : Database)
    → ((x : ReviewJob) → Advances x (if p x then f x else x))
    → new.id ≡ db.next_job_id
    → IsWellFormed db
    → Sound db (record db {
      jobs = update_where p f db.jobs ++ new ∷ [];
      next_job_id = db.next_job_id + 1;
      audit_logs = logs;
    })
Sound-update-append p f new logs db a e w = (
  Grows-append Advances db.jobs (update_where p f db.jobs) (new ∷ [])
      (Grows-update Advances p f db.jobs a),
  append-IsWellFormed new (record db { jobs = update_where p f db.jobs })
      (record db {
        jobs = update_where p f db.jobs ++ new ∷ [];
        next_job_id = db.next_job_id + 1;
        audit_logs = logs;
      })
      e refl refl (update-IsWellFormed p f db (λ x. (a x).same_id) w),
)

pub Sound-append :
    (new : ReviewJob) (db : Database)
    → new.id ≡ db.next_job_id
    → IsWellFormed db
    → Sound db (record db { jobs = db.jobs ++ new ∷ []; next_job_id = db.next_job_id + 1 })
Sound-append new db e w = (
  Grows-append Advances db.jobs db.jobs (new ∷ []) (Grows-refl Advances Advances-refl db.jobs),
  append-IsWellFormed new db
      (record db { jobs = db.jobs ++ new ∷ []; next_job_id = db.next_job_id + 1 }) e refl refl w,
)

update_all :
    (f : ReviewJob → ReviewJob) (xs : List ReviewJob) → map f xs ≡ update_where (λ _. true) f xs
update_all f [] = refl
update_all f (x ∷ xs) = cc (update_all f xs)

-- Every row is mapped.
pub Sound-map :
    (f : ReviewJob → ReviewJob) (db : Database) (ys : List ReviewJob)
    → ys ≡ map f db.jobs
    → ((x : ReviewJob) → Advances x (f x))
    → IsWellFormed db
    → Sound db (record db { jobs = ys })
Sound-map f db ys e a w =
    subst (λ zs. Sound db (record db { jobs = zs })) (sym (e ∙ update_all f db.jobs))
      (Sound-update (λ _. true) f db a w)
