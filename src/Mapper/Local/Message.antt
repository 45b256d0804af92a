-- ===== src/Mapper/Local/Message.antt =====
-- The words of the messages that release the tasks of an application.
use mmemphis.Base.{
  ℕ, zero, suc, ◌+◌, ◌≤◌, ◌<◌, ◌≡◌, refl, ◌∙◌, ◌⊎◌, inl, inr, some, List, [], ◌∷◌, arith, ◌==◌,
  if◌then◌else◌, length, get_elem?, get_or, set, take, length-set, get_or-set_self, get_or-set_ne,
  sub32,
}
use mmemphis.Mapper.Applications.{Task}
use mmemphis.Mapper.Local.{Sending, service, raw, release, put, release_words, release_from}

pub length-put : (i : ℕ) (ws message : List ℕ) → length (put i ws message) ≡ length message
unfolding put
length-put i [] message = refl
length-put i (w ∷ ws) message = length-put (i + 1) ws (set message i w) ∙ length-set message i w

put-outside :
    (i q : ℕ) (ws message : List ℕ)
    → (q < i) ⊎ (i + length ws ≤ q)
    → get_or (put i ws message) q 0 ≡ get_or message q 0
unfolding put
put-outside i q [] message h = refl
put-outside i q (w ∷ ws) message h =
    put-outside (i + 1) q ws (set message i w) (ground arith)
    ∙ get_or-set_ne message w 0 (ground arith)

pub put-inside :
    (i j : ℕ) (ws message : List ℕ)
    → j < length ws
    → i + j < length message
    → get_or (put i ws message) (i + j) 0 ≡ get_or ws j 0
unfolding put
put-inside i j [] message h l = absurd (omega arith)
put-inside i zero (w ∷ ws) message h l =
    let at : i + 0 ≡ i = omega arith in
    rw at (
      put-outside (i + 1) i ws (set message i w) (inl (omega arith))
      ∙ get_or-set_self message i w 0 (omega arith))
put-inside i (suc j) (w ∷ ws) message h l =
    let at : i + suc j ≡ i + 1 + j = omega arith in
    rw at (
      put-inside (i + 1) j ws (set message i w) (omega arith)
        (omega (arith, length-set message i w)))

-- What a task's message says.
pub record Says (n : ℕ) (t : Task) (message words : List ℕ) : Type 0 where
  pub task : get_or words 3 0 ≡ t.id
  pub number : get_or words 8 0 ≡ n
  pub size : get_or words 9 0 ≡ t.data_size
  pub bss : get_or words 11 0 ≡ t.bss_size
  pub long : length words ≡ length message
  pub rest : (q : ℕ) → 13 ≤ q → get_or words q 0 ≡ get_or message q 0

release_words-Says :
    (size n : ℕ) (t : Task) (message : List ℕ)
    → 13 ≤ length message
    → Says n t message (release_words size n t message)
unfolding release_words
release_words-Says size n t message l =
    let first = t.allocated_proc ∷ sub32 size 2 ∷ 0x250 ∷ t.id ∷ [] in
    let header = put 0 first message in
    let long_header : length header ≡ length message = length-put 0 first message in
    let sizes = n ∷ t.data_size ∷ [] in
    let body = put 8 sizes header in
    let long_body : length body ≡ length message = length-put 8 sizes header ∙ long_header in
    let id : get_or header 3 0 ≡ t.id =
      put-inside 0 3 first message (omega arith) (omega (arith, l)) in
    let number : get_or body 8 0 ≡ n =
      put-inside 8 0 sizes header (omega arith) (omega (arith, l, long_header)) in
    let size : get_or body 9 0 ≡ t.data_size =
      put-inside 8 1 sizes header (omega arith) (omega (arith, l, long_header)) in
    record {
      task =
          get_or-set_ne body t.bss_size 0 (omega arith)
          ∙ put-outside 8 3 sizes header (inl (omega arith))
          ∙ id;
      number = get_or-set_ne body t.bss_size 0 (omega arith) ∙ number;
      size = get_or-set_ne body t.bss_size 0 (omega arith) ∙ size;
      bss = get_or-set_self body 11 t.bss_size 0 (omega (arith, l, long_body));
      long = length-set body 11 t.bss_size ∙ long_body;
      rest = λ q h.
          get_or-set_ne body t.bss_size 0 (omega (arith, h))
          ∙ put-outside 8 q sizes header (inr (omega (arith, h)))
          ∙ put-outside 0 q first message (inr (omega (arith, h)));
    }

abbrev pub words_of : Sending → List ℕ
words_of (service target words) = words
words_of (raw words) = words
words_of (release words) = words

-- The message of the task at an index, over the locations that all of them share.
pub release_from-Says :
    (net size n i : ℕ) (t : Task) (tasks : List Task) (message : List ℕ)
    → 13 ≤ length message
    → get_elem? tasks i ≡ some t
    → (x : Sending) × (words : List ℕ) × (get_elem? (release_from net size n tasks message).0 i
        ≡ some x)
      × (words_of x ≡ take size words)
      × Says n t message words
unfolding release_from
release_from-Says net size n i t [] message l g = absurd (cc g)
release_from-Says net size n zero t (u ∷ tasks) message l g =
    let words = release_words size n u message in
    let same : u ≡ t = cc g in
    (
      (if u.allocated_proc == net then release (take size words) else raw (take size words)),
      words,
      refl,
      ground arith,
      rw (← same) (release_words-Says size n u message l),
    )
release_from-Says net size n (suc i) t (u ∷ tasks) message l g =
    let words = release_words size n u message in
    let s = release_words-Says size n u message l in
    let (x, ws, e, w, p) =
      release_from-Says net size n i t tasks words (omega (arith, l, s.long)) g in
    (
      x,
      ws,
      e,
      w,
      record {
        task = p.task;
        number = p.number;
        size = p.size;
        bss = p.bss;
        long = p.long ∙ s.long;
        rest = λ q h. p.rest q h ∙ s.rest q h;
      },
    )
